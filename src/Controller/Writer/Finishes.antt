-- ===== src/Controller/Writer/Finishes.antt =====
-- What a chain of transactions leaves that ended without an error: one rule for each way to build a
-- chain.
use proceed.Base.{Option, none, some, ◌≡◌, refl, Error, Result, ok, err, Ensures, Ensures-at}
use proceed.Controller.Writer.{Tx, Progress, transact, and_then, continue, read_then}

-- what holds of a chain of transactions that ended without an error
pub record Finishes (P : Tx → Type 0) (p : Progress) : Type 0 where
  pub finish : p.failure ≡ none → P p.committed

pub transact-Finishes :
    (P : Tx → Type 0) (t : Tx) (r : Result Tx) → Ensures P r → Finishes P (transact t r)
transact-Finishes P t (ok t') e = record { finish = λ _. Ensures-at e refl }
transact-Finishes P t (err x) e = record { finish = λ h. absurd (cc h) }

following :
    (P Q : Tx → Type 0) (t : Tx) (failure : Option Error) (next : Tx → Progress)
    → (failure ≡ none → P t)
    → ((m : Tx) → P m → Finishes Q (next m))
    → Finishes Q (continue (record { committed = t; failure = failure }) next)
following P Q t none next h k = k t (h refl)
following P Q t (some e) next h k = record { finish = λ done. absurd (cc done) }

pub continue-Finishes :
    (P Q : Tx → Type 0) (p : Progress) (next : Tx → Progress)
    → Finishes P p
    → ((m : Tx) → P m → Finishes Q (next m))
    → Finishes Q (continue p next)
continue-Finishes P Q p next f k = following P Q p.committed p.failure next f.finish k

pub and_then-Finishes :
    (P Q : Tx → Type 0) (p : Progress) (next : Tx → Result Tx)
    → Finishes P p
    → ((m : Tx) → P m → Ensures Q (next m))
    → Finishes Q (and_then p next)
and_then-Finishes P Q p next f k =
    continue-Finishes P Q p (λ m. transact m (next m)) f
      λ m h. transact-Finishes Q m (next m) (k m h)

pub read_then-Finishes :
    {A : Type 0} (P : Tx → Type 0) (t : Tx) (r : Result A) (next : A → Progress)
    → ((a : A) → r ≡ ok a → Finishes P (next a))
    → Finishes P (read_then t r next)
read_then-Finishes P t (ok a) next k = k a refl
read_then-Finishes P t (err x) next k = record { finish = λ h. absurd (cc h) }
