-- ===== src/Send/Store/Run.antt =====
-- How a sequence of actions runs, once it is known how its first action ends.
use breez_sdk_liquid.Base.{◌≡◌, ap}
use breez_sdk_liquid.Base.Result.{Result, ok, err}
use breez_sdk_liquid.Model.Errors.{PaymentError}
use breez_sdk_liquid.Send.Store.{Db, Action, lift, ◌>>=◌}

pub bind-done :
    {A B : Type 0} (action : Action A) (next : A → Action B) (db : Db) {value : A} {db' : Db}
    → action db ≡ (ok value, db')
    → (action >>= next) db ≡ next value db'
unfolding ◌>>=◌
bind-done {A} action next db e = ap (λ (p : Result PaymentError A × Db). (lift p.0 >>= next) p.1) e

pub bind-fail :
    {A B : Type 0} (action : Action A) (next : A → Action B) (db : Db) {failure : PaymentError}
    {db' : Db}
    → action db ≡ (err failure, db')
    → (action >>= next) db ≡ (err failure, db')
unfolding ◌>>=◌
bind-fail {A} action next db e = ap (λ (p : Result PaymentError A × Db). (lift p.0 >>= next) p.1) e
