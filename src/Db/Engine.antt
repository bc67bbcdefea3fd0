-- ===== src/Db/Engine.antt =====
-- The relational engine, and the other library code that api.py calls (SQLAlchemy, oslo.db,
-- oslo.utils): none of it is in the repository, so it is an interface with the documented laws.
use stack4things_openstack_i.Base.{
  ℕ, String, ◌≡◌, Bool, true, false, not, Option, none, some, List, [], ◌∷◌, ◌++◌, map, ℤ, pos,
  if◌then◌else◌, length, filter, any,
}
use stack4things_openstack_i.Db.Schema.{
  Value, Fields, Model, Column, Row, Tables, Values, set_column, set_rows, assign, defaults, unique,
  conflict, keyless, eq_value,
}

-- What a flush does: the tables change, or an exception of oslo.db is raised.
pub data Outcome (A : Type 0) : Type 0 where
  stored : A → Tables → Outcome A
  -- DBDuplicateEntry, with the columns of the broken constraint
  duplicate : List Column → Outcome A
  -- DBReferenceError: a foreign key has no target, or a row is still referred to
  refused : Outcome A

-- UPDATE … SET vs WHERE p
abbrev pub rewrite : (Row → Bool) → Values → Row → Row
rewrite p vs r = if p r then assign vs r else r

-- The tables with a `uuid` column. On an object of another table the attribute is set, and no
-- column stores it.
abbrev has_uuid : Model → Bool
has_uuid Model.board = true
has_uuid Model.plugin = true
has_uuid Model.service = true
has_uuid Model.port = true
has_uuid Model.fleet = true
has_uuid Model.webservice = true
has_uuid Model.request = true
has_uuid m = false

abbrev drop_uuid : Values → Values
drop_uuid [] = []
drop_uuid ((Column.uuid, v) ∷ vs) = drop_uuid vs
drop_uuid ((c, v) ∷ vs) = (c, v) ∷ drop_uuid vs

abbrev known : Model → Values → Values
known m vs = if has_uuid m then vs else drop_uuid vs

-- INSERT INTO m: the defaults, the primary key, then the values
abbrev pub new_row : (Tables → Model → ℕ) → Tables → Model → Values → Row
new_row new_id t m vs =
    assign (known m vs) (set_column (defaults m) Column.id (Value.int (pos (new_id t m))))

-- The arguments limit, marker, sort_key and sort_dir of a listing.
pub record Page : Type 0 where
  pub limit : Option ℕ
  pub marker : Option Value
  pub sort_key : Option String
  pub sort_dir : Option String

abbrev pub whole : Page
whole = record { limit = none; marker = none; sort_key = none; sort_dir = none }

pub record Engine : Type 0 where
  -- SELECT … WHERE p, in the order of the primary key
  pub select : Tables → Model → (Row → Bool) → List Row
  -- the primary key that the next row of a table gets
  pub new_id : Tables → Model → ℕ
  pub insert : Tables → Model → Values → Outcome Row
  -- the number of rows matched is returned
  pub update : Tables → Model → (Row → Bool) → Values → Outcome ℕ
  pub delete : Tables → Model → (Row → Bool) → Outcome ℕ
  -- oslo_db.sqlalchemy.utils.paginate_query; `none` is InvalidSortKey
  pub paginate : Page → List Row → Option (List Row)
  -- oslo_utils
  pub is_uuid_like : String → Bool
  pub int_like : String → Option ℤ
  pub generate_uuid : ℕ → String
  -- Python: str() of a dictionary, and dict(ast.literal_eval(text)), which `none` is an error of
  pub dict_text : Fields → String
  pub literal_dict : String → Option Fields
  pub select_lem : (t : Tables) (m : Model) (p : Row → Bool) → select t m p ≡ filter p (t m)
  pub paginate_whole : (rs : List Row) → paginate whole rs ≡ some rs
  -- an INSERT that is stored broke no constraint, and adds one row, with a primary key of its own,
  -- at the end of its table
  pub insert_stored :
      (t u : Tables) (m : Model) (vs : Values) (r : Row)
      → insert t m vs ≡ stored r u
      → (r ≡ new_row new_id t m vs)
        × (u ≡ set_rows t m (t m ++ r ∷ []))
        × (conflict (unique m) r (t m) ≡ none)
        × (any (λ q. eq_value (q Column.id) (r Column.id)) (t m) ≡ false)
  pub insert_duplicate :
      (t : Tables) (m : Model) (vs : Values) (cs : List Column)
      → insert t m vs ≡ duplicate cs
      → conflict (unique m) (new_row new_id t m vs) (t m) ≡ some cs
  -- an UPDATE that is stored rewrites the rows that match and no other table
  pub update_stored :
      (t u : Tables) (m : Model) (p : Row → Bool) (vs : Values) (n : ℕ)
      → update t m p vs ≡ stored n u
      → (n ≡ length (filter p (t m))) × (u ≡ set_rows t m (map (rewrite p vs) (t m)))
  -- and one that touches no key is always stored
  pub update_keyless :
      (t : Tables) (m : Model) (p : Row → Bool) (vs : Values)
      → keyless vs ≡ true
      → update t m p vs ≡ stored (length (filter p (t m))) (set_rows t m (map (rewrite p vs) (t m)))
  -- a DELETE that is stored drops the rows that match; rows of other tables may go with them
  pub delete_stored :
      (t u : Tables) (m : Model) (p : Row → Bool) (n : ℕ)
      → delete t m p ≡ stored n u
      → (n ≡ length (filter p (t m)))
        × (u m ≡ filter (λ r. not (p r)) (t m))
        × ((k : Model) → (q : Row → Bool) × (u k ≡ filter q (t k)))
