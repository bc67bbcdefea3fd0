-- ===== src/Samples/Memory.antt =====
-- An engine in memory, which meets the laws of the interface. A text that begins with `u` is a
-- uuid, one of one digit a number, and a page is always the whole listing.
use Prim.Native.Char.{code}
use Prim.Native.String.{String}
use stack4things_openstack_i.Base.{
  ==_refl, ℤ, pos, leb, ◌-◌, Option, any, if◌then◌else◌, ◌&&◌, Bool, List, Option-cases, [], ap,
  arith, false, filter, inl, inr, length, map, none, not, refl, some, suc, zero, ℕ, ◌++◌, ◌==◌, ◌∙◌,
  ◌∷◌, ◌≡◌,
}
use stack4things_openstack_i.Db.Engine.{
  Engine, Outcome, duplicate, new_row, refused, rewrite, stored,
}
use stack4things_openstack_i.Db.Schema.{
  Column, Model, Row, Tables, Values, conflict, eq_value, model_index, set_rows, unique,
}

unfoldable pub memory_id : Tables → Model → ℕ
memory_id t m = length (t m)

abbrev is_taken : Row → List Row → Bool
is_taken r rows = any (λ q. eq_value (q Column.id) (r Column.id)) rows

unfoldable pub memory_insert : Tables → Model → Values → Outcome Row
memory_insert t m vs = elim (conflict (unique m) (new_row memory_id t m vs) (t m)) [
  | none ↦
      if is_taken (new_row memory_id t m vs) (t m)
      then refused
      else stored (new_row memory_id t m vs) (set_rows t m (t m ++ new_row memory_id t m vs ∷ []))
  | some cs ↦ duplicate cs
]

unfoldable pub memory_uuid_like : String → Bool
memory_uuid_like String.[] = false
memory_uuid_like (String.◌∷◌ c s) = code c == b'u'

-- the texts of one digit
abbrev pub memory_int_like : String → Option ℤ
memory_int_like String.[] = none
memory_int_like (String.◌∷◌ c String.[]) =
    if leb b'0' (code c) && leb (code c) b'9' then some (pos (code c - b'0')) else none
memory_int_like (String.◌∷◌ c s) = none

unfoldable pub memory_uuid : ℕ → String
memory_uuid zero = "u"
memory_uuid (suc n) = String.◌∷◌ "u" (memory_uuid n)

pub insert_stored_memory :
    (t u : Tables) (m : Model) (vs : Values) (r : Row)
    → memory_insert t m vs ≡ stored r u
    → (r ≡ new_row memory_id t m vs)
      × (u ≡ set_rows t m (t m ++ r ∷ []))
      × (conflict (unique m) r (t m) ≡ none)
      × (any (λ q. eq_value (q Column.id) (r Column.id)) (t m) ≡ false)
unfolding memory_insert
insert_stored_memory t u m vs r h =
    elim (Option-cases (conflict (unique m) (new_row memory_id t m vs) (t m))) [
      | inl e ↦ ground (arith, e)
      | inr (cs, e) ↦ ground (arith, e)
    ]

pub insert_duplicate_memory :
    (t : Tables) (m : Model) (vs : Values) (cs : List Column)
    → memory_insert t m vs ≡ duplicate cs
    → conflict (unique m) (new_row memory_id t m vs) (t m) ≡ some cs
unfolding memory_insert
insert_duplicate_memory t m vs cs h =
    elim (Option-cases (conflict (unique m) (new_row memory_id t m vs) (t m))) [
      | inl e ↦ ground (arith, e)
      | inr (ds, e) ↦ ground (arith, e)
    ]

abbrev memory_update : Tables → Model → (Row → Bool) → Values → Outcome ℕ
memory_update t m p vs = stored (length (filter p (t m))) (set_rows t m (map (rewrite p vs) (t m)))

abbrev kept : Model → (Row → Bool) → Model → Row → Bool
kept m p k r = not (model_index k == model_index m && p r)

abbrev memory_delete : Tables → Model → (Row → Bool) → Outcome ℕ
memory_delete t m p = stored (length (filter p (t m))) (λ k. filter (kept m p k) (t k))

pub update_stored_memory :
    (t u : Tables) (m : Model) (p : Row → Bool) (vs : Values) (n : ℕ)
    → memory_update t m p vs ≡ stored n u
    → (n ≡ length (filter p (t m))) × (u ≡ set_rows t m (map (rewrite p vs) (t m)))
update_stored_memory t u m p vs n h = (cc, cc)

pub delete_stored_memory :
    (t u : Tables) (m : Model) (p : Row → Bool) (n : ℕ)
    → memory_delete t m p ≡ stored n u
    → (n ≡ length (filter p (t m)))
      × (u m ≡ filter (λ r. not (p r)) (t m))
      × ((k : Model) → (q : Row → Bool) × (u k ≡ filter q (t k)))
delete_stored_memory t u m p n h =
    let e : u ≡ (λ k. filter (kept m p k) (t k)) = cc in
    (
      cc,
      ap (λ (x : Tables). x m) e
          ∙ ap (λ (b : Bool). filter (λ r. not (b && p r)) (t m)) (==_refl (model_index m)),
      λ k. (kept m p k, ap (λ (x : Tables). x k) e),
    )

instance abbrev pub memory : Engine
memory = record {
  select = λ t m p. filter p (t m);
  new_id = memory_id;
  insert = memory_insert;
  update = memory_update;
  delete = memory_delete;
  paginate = λ page rs. some rs;
  is_uuid_like = memory_uuid_like;
  int_like = memory_int_like;
  dict_text = λ fs. "{}";
  literal_dict = λ s. none;
  generate_uuid = memory_uuid;
  select_lem = λ t m p. refl;
  paginate_whole = λ rs. refl;
  insert_stored = insert_stored_memory;
  insert_duplicate = insert_duplicate_memory;
  update_stored = update_stored_memory;
  update_keyless = λ t m p vs h. refl;
  delete_stored = delete_stored_memory;
}
