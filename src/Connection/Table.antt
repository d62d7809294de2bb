-- ===== src/Connection/Table.antt =====
-- The invariant of the table of reservations, and how the table may change: rows move along the
-- lifecycle, and rows are added.
use vtafarm_api.Base.{
  ℕ, ◌≡◌, refl, ◌∙◌, ap, sym, Bool, true, false, List, [], ◌∷◌, ◌++◌, map, some, All, All-imp, find,
  find-All, ◌==◌, when, ==→eq,
}
use mathlib.Core.Path.{subst}
use mathlib.Core.Option.{some-injective}
use vtafarm_api.Store.{ClaimStatus, MobileConnection}
use vtafarm_api.Connection.Rules.{is_active, latest}
use vtafarm_api.Connection.Lifecycle.{
  ◌⟶*◌, here, Moves, Moves-refl, Moves-trans, ⟶*-trans, IsStamped,
}

abbrev pub by_id : ℕ → MobileConnection → Bool
by_id id c = c.id == id

-- No two rows have the same id.
abbrev pub HasUniqueIds : List MobileConnection → Type 0
HasUniqueIds cs = All (λ c. find (by_id c.id) cs ≡ some c) cs

-- A row that blocks its session is the session's current row.
abbrev pub IsTidy : List MobileConnection → Type 0
IsTidy cs =
    (session_id : ℕ)
    → All
        (λ c. c.session_id ≡ session_id → is_active c.status ≡ true → latest session_id cs ≡ some c)
        cs

pub record IsValid (cs : List MobileConnection) : Type 0 where
  pub unique : HasUniqueIds cs
  pub tidy : IsTidy cs
  pub stamped : All IsStamped cs

-- The later table: each row has moved, and new rows were open when they came in.
abbrev pub Evolves : List MobileConnection → List MobileConnection → Type 0
Evolves [] ds = All (λ d. ClaimStatus.open_ ⟶* d.status) ds
Evolves (c ∷ cs) [] = ⊥
Evolves (c ∷ cs) (d ∷ ds) = Moves c d × Evolves cs ds

pub Evolves-refl : (cs : List MobileConnection) → Evolves cs cs
Evolves-refl [] = tt
Evolves-refl (c ∷ cs) = (Moves-refl c, Evolves-refl cs)

moved :
    (c d : MobileConnection)
    → ClaimStatus.open_ ⟶* c.status
    → Moves c d
    → ClaimStatus.open_ ⟶* d.status
moved c d p m = ⟶*-trans p m.status

Evolves-new :
    (ds es : List MobileConnection)
    → All (λ d. ClaimStatus.open_ ⟶* d.status) ds
    → Evolves ds es
    → All (λ d. ClaimStatus.open_ ⟶* d.status) es
Evolves-new [] es h e = e
Evolves-new (d ∷ ds) [] h e = absurd e
Evolves-new (d ∷ ds) (x ∷ es) h e = (moved d x h.0 e.0, Evolves-new ds es h.1 e.1)

pub Evolves-trans :
    (cs ds es : List MobileConnection) → Evolves cs ds → Evolves ds es → Evolves cs es
Evolves-trans [] ds es h e = Evolves-new ds es h e
Evolves-trans (c ∷ cs) [] es h e = absurd h
Evolves-trans (c ∷ cs) (d ∷ ds) [] h e = absurd e
Evolves-trans (c ∷ cs) (d ∷ ds) (x ∷ es) h e = (Moves-trans h.0 e.0, Evolves-trans cs ds es h.1 e.1)

abbrev pub AllMove : (MobileConnection → MobileConnection) → List MobileConnection → Type 0
AllMove f cs = All (λ c. Moves c (f c)) cs

pub Evolves-map :
    (f : MobileConnection → MobileConnection) (cs : List MobileConnection)
    → AllMove f cs
    → Evolves cs (map f cs)
Evolves-map f [] h = tt
Evolves-map f (c ∷ cs) h = (h.0, Evolves-map f cs h.1)

pub Evolves-append :
    (cs : List MobileConnection) (r : MobileConnection)
    → r.status ≡ ClaimStatus.open_
    → Evolves cs (cs ++ r ∷ [])
Evolves-append [] r e = (subst (λ s. ClaimStatus.open_ ⟶* s) (sym e) here, tt)
Evolves-append (c ∷ cs) r e = (Moves-refl c, Evolves-append cs r e)

-- An update of the rows that a condition selects.
pub AllMove-where :
    (p : MobileConnection → Bool) (f : MobileConnection → MobileConnection)
    (cs : List MobileConnection)
    → ((c : MobileConnection) → p c ≡ true → Moves c (f c))
    → AllMove (when p f) cs
AllMove-where p f [] h = tt
AllMove-where p f (c ∷ cs) h = (one (p c) refl, AllMove-where p f cs h)
  where
    one : (b : Bool) → p c ≡ b → Moves c (when p f c)
    one true e = rw e (h c e)
    one false e = rw e (Moves-refl c)

-- In a table with unique ids a row is the one that a query by its id finds.
pub find-by_id :
    (p : MobileConnection → Bool) (cs : List MobileConnection) (r : MobileConnection)
    → HasUniqueIds cs
    → find p cs ≡ some r
    → find (by_id r.id) cs ≡ some r
find-by_id p cs r u e = find-All (λ c. find (by_id c.id) cs ≡ some c) p cs r u e

-- An update by the id of a row that was read before.
pub AllMove-by_id :
    (p : MobileConnection → Bool) (f : MobileConnection → MobileConnection)
    (cs : List MobileConnection) (r : MobileConnection)
    → HasUniqueIds cs
    → find p cs ≡ some r
    → Moves r (f r)
    → AllMove (when (by_id r.id) f) cs
AllMove-by_id p f cs r u e m =
    All-imp (λ c. find (by_id c.id) cs ≡ some c) (λ c. Moves c (when (by_id r.id) f c)) cs one u
  where
    same : (c : MobileConnection) → find (by_id c.id) cs ≡ some c → c.id ≡ r.id → c ≡ r
    same c h i = some-injective c r (sym h ∙ ap (λ k. find (by_id k) cs) i ∙ find-by_id p cs r u e)

    decide :
        (c : MobileConnection)
        → find (by_id c.id) cs ≡ some c
        → (b : Bool) → by_id r.id c ≡ b
        → Moves c (when (by_id r.id) f c)
    decide c h true i = rw i (subst (λ x. Moves x (f x)) (sym (same c h (==→eq c.id r.id i))) m)
    decide c h false i = rw i (Moves-refl c)

    one : (c : MobileConnection) → find (by_id c.id) cs ≡ some c → Moves c (when (by_id r.id) f c)
    one c h = decide c h (by_id r.id c) refl
