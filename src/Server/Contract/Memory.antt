-- ===== src/Server/Contract/Memory.antt =====
-- A store of facts in memory, in the order of the identifiers' first appearance.
use ragamuffin.Base.{
  ℕ, zero, suc, ◌≡◌, Option, none, some, List, [], ◌∷◌, arith, if◌then◌else◌, take, Option-cases,
  inl, inr,
}
use ragamuffin.Text.{Text, same_text}
use ragamuffin.Text.Maps.{lookup, insert, lookup-insert}
use ragamuffin.Text.Order.{same_text_iff}
use ragamuffin.Chunker.Links.{is_empty}
use ragamuffin.Store.Payload.{Fields}
use ragamuffin.Store.Payload.Access.{set_fields}
use ragamuffin.Store.Filter.{Filter, filter_matches}
use ragamuffin.Server.{Point, FactStore, Write, write_done}
use ragamuffin.Server.Contract.{IsFactStore, updated}

abbrev pub Memory : Type 0
Memory = List (Text × Point)

matching : Option Filter → Memory → List Point
matching f [] = []
matching f ((i, p) ∷ m) =
    let rest = matching f m in if filter_matches p.payload f then p ∷ rest else rest

behind : Text → Memory → Memory
behind offset [] = []
behind offset ((i, p) ∷ m) = if same_text i offset then m else behind offset m

-- Limit 0 is none.
up_to : ℕ → List Point → List Point
up_to zero ps = ps
up_to (suc n) ps = take (suc n) ps

unfoldable pub scroll : Memory → Option Filter → ℕ → Text → Option (List Point)
unfolding matching behind up_to
scroll m f limit offset =
    some (up_to limit (matching f (if is_empty offset then m else behind offset m)))

unfoldable pub put : Memory → Point → Write Memory
unfolding insert
put m p = write_done (insert p.id p m)

unfoldable pub set : Memory → Text → Fields → Write Memory
unfolding lookup insert
set m i f = elim (lookup i m) [
  | none ↦ write_done m
  | some p ↦ write_done (insert i (record p { payload = set_fields f p.payload }) m)
]

remove : Filter → Memory → Memory
remove f [] = []
remove f ((i, p) ∷ m) =
    let rest = remove f m in if filter_matches p.payload (some f) then rest else (i, p) ∷ rest

unfoldable pub memory : FactStore Memory
unfolding scroll put set remove
memory = record {
  scroll_filtered = scroll;
  upsert = put;
  set_payload = set;
  delete_filtered = λ m f. write_done (remove f m);
}

payload_of : Option Point → Option Fields
payload_of none = none
payload_of (some p) = some p.payload

unfoldable pub find : Memory → Text → Option Fields
unfolding payload_of lookup
find m id = payload_of (lookup id m)

find-put :
    (s t : Memory) (p : Point) (id : Text)
    → put s p ≡ write_done t
    → find t id ≡ (if same_text p.id id then some p.payload else find s id)
unfolding put find payload_of
find-put s t p id h =
    let e : insert p.id p s ≡ t = ground arith in
    rw (← e) (rw (lookup-insert p.id id p s) (ground arith))

insert_at :
    (i : Text) (f : Fields) (s : Memory) (p : Point)
    → lookup i s ≡ some p
    → (t : Memory) → set s i f ≡ write_done t
    → insert i (record p { payload = set_fields f p.payload }) s ≡ t
unfolding set
insert_at i f s p e t h = ground (arith, e, h)

find-set :
    (s t : Memory) (i : Text) (f : Fields) (id : Text)
    → set s i f ≡ write_done t
    → find t id ≡ (if same_text i id then updated f (find s id) else find s id)
unfolding set find payload_of
find-set s t i f id h = elim (Option-cases (lookup i s)) [
  | inl e ↦ ground (arith, h, e, same_text_iff i id)
  | inr (p, e) ↦
      let f2 = insert_at i f s p e t h in
      rw (← f2) (
        rw (lookup-insert i id (record p { payload = set_fields f p.payload }) s)
          (ground (arith, e, same_text_iff i id)))
]

pub memory-IsFactStore : IsFactStore memory find
unfolding memory
memory-IsFactStore = record { find_upsert = find-put; find_set_payload = find-set }

-- No update is refused.
pub takes :
    (s : Memory) (id : Text) (f : Fields)
    → (t : Memory) × (memory.set_payload s id f ≡ write_done t)
unfolding memory set
takes s id f = elim (Option-cases (lookup id s)) [
  | inl e ↦ (s, ground (arith, e))
  | inr (p, e) ↦ (insert id (record p { payload = set_fields f p.payload }) s, ground (arith, e))
]
