-- ===== src/Connection/Grows.antt =====
-- Rules for showing that an operation keeps the table of reservations valid and moves its rows
-- along the lifecycle only.
use vtafarm_api.Base.{
  ◌≡◌, refl, sym, Bool, true, false, List, Option, none, some, find, when, update_where,
}
use mathlib.Core.Path.{subst}
use vtafarm_api.Store.{MobileConnection, Db, Tx, Error, Outcome, after, ok, err, or_fail, check}
use vtafarm_api.Connection.Lifecycle.{Moves}
use vtafarm_api.Connection.Table.{
  by_id, IsValid, Evolves, Evolves-refl, Evolves-trans, Evolves-map, AllMove, AllMove-where,
  AllMove-by_id,
}
use vtafarm_api.Connection.Valid.{map-IsValid}

abbrev pub table : {A : Type 0} → Outcome A → List MobileConnection
table o = (after o).connections

abbrev pub Grows : List MobileConnection → List MobileConnection → Type 0
Grows cs ds = IsValid cs → IsValid ds × Evolves cs ds

pub Grows-refl : (cs : List MobileConnection) → Grows cs cs
Grows-refl cs v = (v, Evolves-refl cs)

pub Grows-trans : (cs ds es : List MobileConnection) → Grows cs ds → Grows ds es → Grows cs es
Grows-trans cs ds es g h v =
    let a : IsValid ds × Evolves cs ds = g v in
    let b : IsValid es × Evolves ds es = h a.0 in (b.0, Evolves-trans cs ds es a.1 b.1)

pub Grows-eq : (cs ds es : List MobileConnection) → es ≡ ds → Grows cs ds → Grows cs es
Grows-eq cs ds es e g = subst (λ x. Grows cs x) (sym e) g

pub Grows-where :
    (p : MobileConnection → Bool) (f : MobileConnection → MobileConnection)
    (cs : List MobileConnection)
    → ((c : MobileConnection) → p c ≡ true → Moves c (f c))
    → Grows cs (update_where p f cs)
Grows-where p f cs h v =
    let m : AllMove (when p f) cs = AllMove-where p f cs h in
    (map-IsValid (when p f) cs m v, Evolves-map (when p f) cs m)

pub Grows-by_id :
    (p : MobileConnection → Bool) (f : MobileConnection → MobileConnection)
    (cs : List MobileConnection) (r : MobileConnection)
    → find p cs ≡ some r
    → Moves r (f r)
    → Grows cs (update_where (by_id r.id) f cs)
Grows-by_id p f cs r e h v =
    let m : AllMove (when (by_id r.id) f) cs = AllMove-by_id p f cs r v.unique e h in
    (map-IsValid (when (by_id r.id) f) cs m v, Evolves-map (when (by_id r.id) f) cs m)

-- Rules for the parts of a transaction.
pub then-Grows :
    {A B : Type 0} (cs : List MobileConnection) (o : Outcome A) (k : Tx B)
    → Grows cs (table o)
    → ((d : Db) → Grows d.connections (table (k d)))
    → Grows cs (table (elim o [ ok a d ↦ k d | err e d ↦ err e d ]))
then-Grows cs (ok a d) k g h = Grows-trans cs d.connections (table (k d)) g (h d)
then-Grows cs (err e d) k g h = g

pub query-Grows :
    {A B : Type 0} (o : Option A) (e : Error) (f : A → Tx B) (db : Db)
    → ((a : A) → o ≡ some a → Grows db.connections (table (f a db)))
    → Grows db.connections (table (elim (or_fail o e db) [ ok a d ↦ f a d | err e d ↦ err e d ]))
query-Grows none e f db h = Grows-refl db.connections
query-Grows (some a) e f db h = h a refl

pub check-Grows :
    {B : Type 0} (b : Bool) (e : Error) (k : Tx B) (db : Db)
    → (b ≡ true → Grows db.connections (table (k db)))
    → Grows db.connections (table (elim (check b e db) [ ok a d ↦ k d | err e d ↦ err e d ]))
check-Grows true e k db h = h refl
check-Grows false e k db h = Grows-refl db.connections

pub transaction-Grows :
    {A : Type 0} (db : Db) (o : Outcome A)
    → Grows db.connections (table o)
    → Grows db.connections (table (elim o [ ok a d ↦ ok a d | err e d ↦ err e db ]))
transaction-Grows db (ok a d) g = g
transaction-Grows db (err e d) g = Grows-refl db.connections
