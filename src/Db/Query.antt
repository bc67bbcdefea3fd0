-- ===== src/Db/Query.antt =====
-- db/sqlalchemy/api.py: the query helpers, and the shapes that its methods share. A query is a
-- table and the test that its rows must pass.
use stack4things_openstack_i.Base.{
  ℕ, suc, String, Bool, true, false, ◌&&◌, ◌||◌, Option, none, some, List, [], ◌∷◌, ◌++◌, ℤ,
  if◌then◌else◌,
}
use stack4things_openstack_i.Db.Schema.{
  Value, Model, Column, Row, Values, eq_value, same_column, assign, assigns, value_of,
}
use stack4things_openstack_i.Db.Engine.{Engine, Outcome, stored, duplicate, refused, Page}
use stack4things_openstack_i.Action.{
  Exception, Result, ok, raised, Action, ◌>>=◌, ◌>>◌, pure, raise, lift, catch, or_not_found,
  transaction,
}

-- query.filter_by(column=value)
unfoldable pub has : Column → Value → Row → Bool
has c v r = eq_value (r c) v

abbrev pub both : (Row → Bool) → (Row → Bool) → Row → Bool
both p q r = p r && q r

abbrev pub every : Row → Bool
every r = true

-- query.one() on the rows found
abbrev pub the_one : List Row → Result Row
the_one [] = raised Exception.no_result_found
the_one (r ∷ []) = ok r
the_one (r ∷ s ∷ rest) = raised Exception.multiple_results_found

abbrev pub flush : {A : Type 0} → Outcome A → Action A
flush (stored a t) w = (ok a, record w { tables = t })
flush (duplicate cs) w = (raised (Exception.db_duplicate_entry cs), w)
flush refused w = (raised Exception.db_reference_error, w)

abbrev pub contains_column : Column → List Column → Bool
contains_column c [] = false
contains_column c (d ∷ ds) = same_column c d || contains_column c ds

-- values['column'] in the argument of an exception: KeyError when it is not there
abbrev pub raise_keyed : {A : Type 0} → Column → Values → (Value → Exception) → Action A
raise_keyed c vs e = if assigns c vs then raise (e (value_of c vs)) else raise Exception.key_error

-- except DBDuplicateEntry: raise e
abbrev pub on_duplicate : {A : Type 0} → Exception → Exception → Action A
on_duplicate e (Exception.db_duplicate_entry cs) = raise e
on_duplicate e other = raise other

-- the ladder of the update methods: 'name', then 'uuid', then the exception itself
abbrev pub on_duplicate_update : {A : Type 0} → (Value → Exception) → Values → Exception → Action A
on_duplicate_update exists vs (Exception.db_duplicate_entry cs) =
    if contains_column Column.name cs
    then raise_keyed Column.name vs Exception.duplicate_name
    else if contains_column Column.uuid cs
    then raise_keyed Column.uuid vs exists
    else raise (Exception.db_duplicate_entry cs)
on_duplicate_update exists vs other = raise other

module _ ⦃E : Engine⦄ where
  unfoldable pub one : Model → (Row → Bool) → Action Row
  one m p w = (the_one (E.select w.tables m p), w)

  unfoldable pub all : Model → (Row → Bool) → Action (List Row)
  all m p w = (ok (E.select w.tables m p), w)

  unfoldable pub insert_row : Model → Values → Action Row
  insert_row m vs w = flush (E.insert w.tables m vs) w

  unfoldable pub update_rows : Model → (Row → Bool) → Values → Action ℕ
  update_rows m p vs w = flush (E.update w.tables m p vs) w

  unfoldable pub delete_rows : Model → (Row → Bool) → Action ℕ
  delete_rows m p w = flush (E.delete w.tables m p) w

  -- strutils.is_int_like and uuidutils.is_uuid_like on any value
  abbrev pub is_uuid_like : Value → Bool
  is_uuid_like (Value.str s) = E.is_uuid_like s
  is_uuid_like v = false

  abbrev filter_by_text : String → Option ℤ → Result (Row → Bool)
  filter_by_text s (some z) = ok (has Column.id (Value.int z))
  filter_by_text s none =
      if E.is_uuid_like s
      then ok (has Column.uuid (Value.str s))
      else raised (Exception.invalid_identity (Value.str s))

  -- the test that add_identity_filter adds to the query
  unfoldable pub add_identity_filter : Value → Result (Row → Bool)
  add_identity_filter (Value.int z) = ok (has Column.id (Value.int z))
  add_identity_filter (Value.str s) = filter_by_text s (E.int_like s)
  add_identity_filter v = raised (Exception.invalid_identity v)

  or_invalid : Option (List Row) → Result (List Row)
  or_invalid none = raised Exception.invalid_parameter_value
  or_invalid (some rs) = ok rs

  -- _paginate_query on a query of its own
  unfoldable pub paginate_query : Model → Page → (Row → Bool) → Action (List Row)
  unfolding or_invalid
  paginate_query m page p w = (or_invalid (E.paginate page (E.select w.tables m p)), w)

  unfoldable pub new_uuid : Action String
  new_uuid w = (ok (E.generate_uuid w.uuids), record w { uuids = suc w.uuids })

  -- if 'uuid' not in values: values['uuid'] = generate_uuid()
  unfoldable pub ensure_uuid : Values → Action Values
  unfolding new_uuid
  ensure_uuid vs =
      if assigns Column.uuid vs
      then pure vs
      else do u ← new_uuid; pure (vs ++ (Column.uuid, Value.str u) ∷ [])

  -- the body of the create methods whose duplicates are all one exception
  unfoldable pub create_row : Model → (Value → Exception) → Values → Action Row
  unfolding ensure_uuid insert_row
  create_row m exists values = do
    vs ← ensure_uuid values
    catch (insert_row m vs) (on_duplicate (exists (value_of Column.uuid vs)))

  -- the body of the _do_update methods: ref = query.one(); ref.update(values)
  unfoldable pub do_update : Model → (Value → Exception) → Value → Values → Action Row
  unfolding one update_rows
  do_update m not_found ident vs = transaction do
    p ← lift (add_identity_filter ident)
    ref ← or_not_found (one m p) (not_found ident)
    update_rows m (has Column.id (ref Column.id)) vs
    pure (assign vs ref)

  -- the body of the update methods
  unfoldable pub update_row :
      Model → (Value → Exception) → (Value → Exception) → Value → Values → Action Row
  unfolding do_update
  update_row m not_found exists ident vs =
      if assigns Column.uuid vs
      then raise Exception.invalid_parameter_value
      else catch (do_update m not_found ident vs) (on_duplicate_update exists vs)

  -- the body of the destroy methods that look the row up first
  unfoldable pub destroy_row : Model → (Value → Exception) → Value → Action (Unit {0})
  unfolding one delete_rows
  destroy_row m not_found ident = transaction do
    p ← lift (add_identity_filter ident)
    or_not_found (one m p) (not_found ident)
    delete_rows m p
    pure tt
