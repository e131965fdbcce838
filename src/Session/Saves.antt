-- ===== src/Session/Saves.antt =====
-- What a method of `Store` does to the session: the answer, the session behind it, and the calls of
-- `persist` on the way, each with the session as it stood then.
use sbnn.Prelude.{List, [], some, ◌∷◌, ◌≡◌}
use sbnn.Session.{Session}
use sbnn.Session.Log.{LogRecord, apply}

pub record Edit {ℓ} (A : Type ℓ) : Type ℓ where
  pub answer : A
  pub session : Session
  pub saves : List (Session × LogRecord)

-- Nothing changed and nothing was persisted.
abbrev pub unchanged {ℓ} : {A : Type ℓ} → A → Session → Edit A
unchanged a s = record { answer = a; session = s; saves = [] }

-- One change, persisted by one record.
abbrev pub saved {ℓ} : {A : Type ℓ} → A → LogRecord → Session → Edit A
saved a rec s = record { answer = a; session = s; saves = (s, rec) ∷ [] }

-- `rec.Seqs, rec.Rounds = s.seq, s.rounds`
abbrev pub stamp : Session → LogRecord → LogRecord
stamp s rec = record rec { seqs = s.seq; rounds = s.rounds }

-- The calls of `persist` follow the session from one state to the next, each record by its replay.
abbrev pub Logged : Session → List (Session × LogRecord) → Session → Type 0
Logged s [] t = s ≡ t
Logged s ((u, rec) ∷ saves) t = (apply (stamp u rec) s ≡ some u) × Logged u saves t
