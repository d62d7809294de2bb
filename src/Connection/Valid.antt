-- ===== src/Connection/Valid.antt =====
-- The table's invariant is kept by updates that move rows along the lifecycle and by the insertion
-- of a row that the indexes admit.
use vtafarm_api.Base.{
  ℕ, ◌≡◌, refl, ◌∙◌, ap, sym, true, false, List, [], ◌∷◌, ◌++◌, map, Option, none, some, arith, All,
  All-append, All-map₂, All-imp, find, ◌==◌, Bool-cases, Option-cases, inl, inr, ==→eq,
  find-append_some, find-append_none, find-none, All-and,
}
use mathlib.Core.Path.{subst}
use mathlib.Core.Option
use vtafarm_api.Store.{MobileConnection}
use vtafarm_api.Connection.Rules.{is_active, latest, newer, pick, clashes}
use vtafarm_api.Connection.Lifecycle.{Moves, ⟶*-active, IsStamped}
use vtafarm_api.Connection.Table.{by_id, HasUniqueIds, IsTidy, IsValid, AllMove}

-- The current row of a session is one of the table, and belongs to the session.
pub latest-All {κ} :
    (P : MobileConnection → Type κ) (session_id : ℕ) (cs : List MobileConnection)
    (a : MobileConnection)
    → All P cs
    → latest session_id cs ≡ some a
    → P a
unfolding latest
latest-All P session_id [] a h e = cc
latest-All P session_id (c ∷ cs) a h e = elim (Option-cases (latest session_id cs)) [
  | inl n ↦ ground (arith, n)
  | inr (d, s) ↦
      ground (arith, s, latest-All P session_id cs d h.1 s, latest-All P session_id cs a h.1)
]

pub latest_session :
    (session_id : ℕ) (cs : List MobileConnection) (a : MobileConnection)
    → latest session_id cs ≡ some a
    → a.session_id ≡ session_id
unfolding latest
latest_session session_id [] a e = cc
latest_session session_id (c ∷ cs) a e = ground (arith, latest_session session_id cs a)

module _ (f : MobileConnection → MobileConnection) where
  find-map :
      (id : ℕ) (cs : List MobileConnection)
      → AllMove f cs
      → find (by_id id) (map f cs) ≡ Option.map f (find (by_id id) cs)
  unfolding find
  find-map id [] m = refl
  find-map id (c ∷ cs) m = ground (arith, find-map id cs m.1, m.0.id)

  pick-map :
      (c : MobileConnection) (o : Option MobileConnection)
      → Moves c (f c)
      → ((d : MobileConnection) → o ≡ some d → Moves d (f d))
      → pick (f c) (Option.map f o) ≡ Option.map f (pick c o)
  unfolding pick
  pick-map c none m n = refl
  pick-map c (some d) m n = ground (arith, m.id, m.created_at, (n d refl).id, (n d refl).created_at)

  latest-map :
      (session_id : ℕ) (cs : List MobileConnection)
      → AllMove f cs
      → latest session_id (map f cs) ≡ Option.map f (latest session_id cs)
  unfolding latest
  latest-map session_id [] m = refl
  latest-map session_id (c ∷ cs) m = ground (
    arith,
    m.0.session_id,
    latest-map session_id cs m.1,
    pick-map c (latest session_id cs) m.0
        (λ d. latest-All (λ c. Moves c (f c)) session_id cs d m.1),
  )

  map-HasUniqueIds :
      (cs : List MobileConnection) → AllMove f cs → HasUniqueIds cs → HasUniqueIds (map f cs)
  map-HasUniqueIds cs m u =
      All-map₂ (λ c. Moves c (f c)) (λ c. find (by_id c.id) cs ≡ some c)
        (λ c. find (by_id c.id) (map f cs) ≡ some c) f cs one m u
    where
      one :
          (c : MobileConnection)
          → Moves c (f c)
          → find (by_id c.id) cs ≡ some c
          → find (by_id (f c).id) (map f cs) ≡ some (f c)
      one c k e =
          ap (λ i. find (by_id i) (map f cs)) k.id ∙ find-map c.id cs m ∙ ap (Option.map f) e

  map-IsTidy : (cs : List MobileConnection) → AllMove f cs → IsTidy cs → IsTidy (map f cs)
  map-IsTidy cs m t session_id =
      All-map₂ (λ c. Moves c (f c))
        (λ c. c.session_id ≡ session_id → is_active c.status ≡ true → latest session_id cs ≡ some c)
        (λ c.
          c.session_id ≡ session_id
          → is_active c.status ≡ true
          → latest session_id (map f cs) ≡ some c)
        f cs
        (λ c k h e a.
          latest-map session_id cs m
          ∙ ap (Option.map f) (h (sym k.session_id ∙ e) (⟶*-active k.status a)))
        m (t session_id)

  pub map-IsValid : (cs : List MobileConnection) → AllMove f cs → IsValid cs → IsValid (map f cs)
  map-IsValid cs m v = record {
    unique = map-HasUniqueIds cs m v.unique;
    tidy = map-IsTidy cs m v.tidy;
    stamped =
        All-map₂ (λ c. Moves c (f c)) IsStamped IsStamped f cs (λ c k h. k.stamped h) m v.stamped;
  }

abbrev pub Fits : MobileConnection → List MobileConnection → Type 0
Fits r cs = All (λ c. clashes r c ≡ false) cs

abbrev pub IsNewest : MobileConnection → List MobileConnection → Type 0
IsNewest r cs = All (λ c. c.session_id ≡ r.session_id → newer r c ≡ true) cs

module _ (r : MobileConnection) where
  find-fresh : (cs : List MobileConnection) → Fits r cs → find (by_id r.id) cs ≡ none
  find-fresh cs h =
      find-none (by_id r.id) cs
        (All-imp (λ c. clashes r c ≡ false) (λ c. by_id r.id c ≡ false) cs other h)
    where
      other : (c : MobileConnection) → clashes r c ≡ false → by_id r.id c ≡ false
      other c k = unfold clashes in ground arith

  latest-append_other :
      (session_id : ℕ) (cs : List MobileConnection)
      → (r.session_id == session_id) ≡ false
      → latest session_id (cs ++ r ∷ []) ≡ latest session_id cs
  unfolding latest
  latest-append_other session_id [] h = ground arith
  latest-append_other session_id (c ∷ cs) h = ground (arith, latest-append_other session_id cs h)

  latest-append_self :
      (cs : List MobileConnection) → IsNewest r cs → latest r.session_id (cs ++ r ∷ []) ≡ some r
  unfolding latest
  latest-append_self [] h = ground arith
  latest-append_self (c ∷ cs) h = ground (arith, latest-append_self cs h.1, h.0)

  append-HasUniqueIds :
      (cs : List MobileConnection) → Fits r cs → HasUniqueIds cs → HasUniqueIds (cs ++ r ∷ [])
  append-HasUniqueIds cs h u =
      All-append (λ c. find (by_id c.id) (cs ++ r ∷ []) ≡ some c) cs (r ∷ [])
        (All-imp (λ c. find (by_id c.id) cs ≡ some c)
          (λ c. find (by_id c.id) (cs ++ r ∷ []) ≡ some c) cs
          (λ c e. find-append_some (by_id c.id) cs (r ∷ []) c e) u)
        (find-append_none (by_id r.id) cs (r ∷ []) (find-fresh cs h) ∙ found, tt)
    where
      found : find (by_id r.id) (r ∷ []) ≡ some r
      found = unfold find in ground arith

  -- An active row that fits leaves no other active row in its session.
  Fits-idle :
      (c : MobileConnection)
      → is_active r.status ≡ true
      → clashes r c ≡ false
      → c.session_id ≡ r.session_id
      → is_active c.status ≡ false
  unfolding clashes
  Fits-idle c a h e = ground arith

  append-IsTidy :
      (cs : List MobileConnection)
      → is_active r.status ≡ true
      → Fits r cs
      → IsNewest r cs
      → IsTidy cs
      → IsTidy (cs ++ r ∷ [])
  append-IsTidy cs a h n t session_id =
      All-append Here cs (r ∷ [])
        (All-imp (λ c. (clashes r c ≡ false) × There c) Here cs old
          (All-and (λ c. clashes r c ≡ false) There cs h (t session_id)))
        (λ e _. subst (λ k. latest k (cs ++ r ∷ []) ≡ some r) e (latest-append_self cs n), tt)
    where
      Here : MobileConnection → Type 0
      Here c =
          c.session_id ≡ session_id
          → is_active c.status ≡ true
          → latest session_id (cs ++ r ∷ []) ≡ some c

      There : MobileConnection → Type 0
      There c =
          c.session_id ≡ session_id → is_active c.status ≡ true → latest session_id cs ≡ some c

      old : (c : MobileConnection) → (clashes r c ≡ false) × There c → Here c
      old c k e b = elim (Bool-cases (r.session_id == session_id)) [
        | inl s ↦ absurd (cc (b, Fits-idle c a k.0 (e ∙ sym (==→eq r.session_id session_id s))))
        | inr s ↦ latest-append_other session_id cs s ∙ k.1 e b
      ]

  pub append-IsValid :
      (cs : List MobileConnection)
      → is_active r.status ≡ true
      → IsStamped r
      → Fits r cs
      → IsNewest r cs
      → IsValid cs
      → IsValid (cs ++ r ∷ [])
  append-IsValid cs a s h n v = record {
    unique = append-HasUniqueIds cs h v.unique;
    tidy = append-IsTidy cs a h n v.tidy;
    stamped = All-append IsStamped cs (r ∷ []) v.stamped (s, tt);
  }
