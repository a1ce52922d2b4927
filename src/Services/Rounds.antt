-- ===== src/Services/Rounds.antt =====
-- `Promise.all` over mutations of the store (lib/services/operations.ts: `startMarketScan`). The tasks go
-- on side by side: the store takes their mutations in turn, first the first one of every task, then the
-- second ones. A task that throws stops there, the others run to their end, and the first message is
-- thrown on.
use volta_hackathon.Prelude.{ℕ, suc, String, Option, none, some, List, [], ◌∷◌, Result, ok, err}
use volta_hackathon.Store.Mutation.{World}
use volta_hackathon.Store.Session.{Session}

abbrev with_all : {A : Type 0} → Result A → Result (List A) → Result (List A)
with_all (err message) rs = err message
with_all (ok a) (err message) = err message
with_all (ok a) (ok rest) = ok (a ∷ rest)

-- `Promise.all(xs.map(f))`, where `f` is one mutation.
unfoldable pub all_of : {A B : Type 0} → (A → Session B) → List A → Session (List B)
all_of f [] w = (ok [], w)
all_of f (x ∷ xs) w = let (r, w') = f x w in let (rs, w'') = all_of f xs w' in (with_all r rs, w'')

-- One mutation of every task: the tasks that go on, and the first message that was thrown.
pub record Round (A : Type 0) : Type 0 where
  pub going : List A
  pub thrown : Option String

abbrev before : {A : Type 0} → Option String → Round A → Round A
before none r = r
before (some message) r = record r { thrown = some message }

unfoldable pub round : {A B : Type 0} → (A → Session B) → List A → World → Round A × World
round f [] w = (record { going = []; thrown = none }, w)
round f (x ∷ xs) w =
    let (r, w') = f x w in
    let (rest, w'') = round f xs w' in
    elim r [
      | ok b ↦ (record rest { going = x ∷ rest.going }, w'')
      | err message ↦ (before (some message) rest, w'')
    ]

-- Three mutations in turn for every task.
unfoldable pub three_rounds :
    {A B C D : Type 0}
    → (A → Session B)
    → (A → Session C)
    → (A → Session D)
    → List A
    → Session (Unit {0})
three_rounds f g h xs w =
    let (a, w1) = round f xs w in
    let (b, w2) = round g a.going w1 in
    let (c, w3) = round h b.going w2 in
    elim (before a.thrown (before b.thrown c)).thrown [
      | none ↦ (ok tt, w3)
      | some message ↦ (err message, w3)
    ]

abbrev pub indexed_from : {A : Type 0} → ℕ → List A → List (A × ℕ)
indexed_from n [] = []
indexed_from n (x ∷ xs) = (x, n) ∷ indexed_from (suc n) xs
