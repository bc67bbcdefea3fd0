-- ===== src/Conductor/Requests/Closing.antt =====
-- How requests and results are closed, and main requests counted down.
use stack4things_openstack_i.Action.{WampMessage, World, ok}
use stack4things_openstack_i.Base.{
  Bool-cases, [], arith, eq_ℤ, false, filter, if◌then◌else◌, inl, inr, pos, pred_ℤ, refl, true, ℤ,
  ◌∷◌, ◌≡◌,
}
use stack4things_openstack_i.Conductor.Requests.{
  completed, count_down, decrement, finish, settle_main,
}
use stack4things_openstack_i.Db.Engine.{Engine}
use stack4things_openstack_i.Db.Laws.{IsNumber, one_found}
use stack4things_openstack_i.Db.Query.{has}
use stack4things_openstack_i.Db.Requests.{get_request_by_uuid}
use stack4things_openstack_i.Db.Schema.{
  Column, Model, Row, Tables, Value, Values, assign, eq_value, set_column, truthy,
}
use stack4things_openstack_i.Objects.{
  Object, changes_of, from_db_object, save_request, save_result, set_attr,
}
use stack4things_openstack_i.Objects.Laws.{
  IsUuid, save_request_lem, save_result_lem, updated, updated_found, updated_other,
}

abbrev pub closed : Values
closed = (Column.status, completed) ∷ []

-- what a final message writes to its result
abbrev pub answered : WampMessage → Values
answered m = (Column.message, m.message) ∷ (Column.result, Value.str m.result) ∷ []

-- what one more finished request writes to its main request
abbrev pub counted : ℤ → Values
counted z =
    if eq_ℤ (pred_ℤ z) (pos 0)
    then (Column.status, completed) ∷ (Column.pending_requests, Value.int (pred_ℤ z)) ∷ []
    else (Column.pending_requests, Value.int (pred_ℤ z)) ∷ []

module _ ⦃E : Engine⦄ where
  -- one request with this uuid, which is its own, and with a number for its primary key
  pub record IsRequest (t : Tables) (u : Value) (q : Row) : Type 0 where
    pub uuid : IsUuid u
    pub same_uuid : q Column.uuid ≡ u
    pub key : IsNumber (q Column.id)
    pub only : filter (has Column.uuid u) (t Model.request) ≡ q ∷ []

  pub get_request_lem :
      (w : World) (u : Value) (q : Row)
      → IsRequest w.tables u q
      → get_request_by_uuid u w ≡ (ok q, w)
  unfolding get_request_by_uuid
  get_request_lem w u q h = ground (arith, one_found w Model.request (has Column.uuid u) q h.only)

  -- The save of a request's new status.
  pub close_request_lem :
      (w : World) (u : Value) (q : Row)
      → IsRequest w.tables u q
      → save_request (set_attr (from_db_object q) Column.status completed) w ≡ (
        ok (from_db_object (set_column q Column.status completed)),
        record w { tables = updated w.tables Model.request q closed },
      )
  unfolding changes_of
  close_request_lem w u q h =
      save_request_lem w q (set_column q Column.status completed) (Column.status ∷ []) refl
        (rw h.same_uuid h.uuid) refl (rw h.same_uuid h.only)

  settle_main_without :
      (w : World) (req : Object)
      → truthy (req.row Column.main_request_uuid) ≡ false
      → settle_main req w ≡ (ok tt, w)
  unfolding settle_main
  settle_main_without w req h = ground arith

  -- The main request, whose count is the number z, is written once.
  pub settle_main_lem :
      (w : World) (req : Object) (u : Value) (m : Row) (z : ℤ)
      → req.row Column.main_request_uuid ≡ u
      → truthy u ≡ true
      → IsRequest w.tables u m
      → m Column.pending_requests ≡ Value.int z
      → settle_main req w
        ≡ (ok tt, record w { tables = updated w.tables Model.request m (counted z) })
  unfolding settle_main decrement count_down eq_value changes_of
  settle_main_lem w req u m z main true_main h p = elim (Bool-cases (eq_ℤ (pred_ℤ z) (pos 0))) [
    | inl zero_left ↦ ground (
      arith,
      zero_left,
      get_request_lem w u m h,
      save_request_lem w m
          (set_column (set_column m Column.pending_requests (Value.int (pred_ℤ z))) Column.status
            completed)
          (Column.status ∷ Column.pending_requests ∷ []) refl (rw h.same_uuid h.uuid) refl
          (rw h.same_uuid h.only),
    )
    | inr more_left ↦ ground (
      arith,
      more_left,
      get_request_lem w u m h,
      save_request_lem w m (set_column m Column.pending_requests (Value.int (pred_ℤ z)))
          (Column.pending_requests ∷ []) refl (rw h.same_uuid h.uuid) refl (rw h.same_uuid h.only),
    )
  ]

  -- what a count writes keeps the uuid
  counted_uuid :
      (z : ℤ) (u : Value) (q : Row) → has Column.uuid u (assign (counted z) q) ≡ has Column.uuid u q
  unfolding has
  counted_uuid z u q = ground arith

  -- A request with a main request is done: the main request counts one request less; it is
  -- set to COMPLETED when none is left, and keeps its status otherwise.
  pub settle_main_counts :
      (w : World) (req : Object) (u : Value) (m : Row) (z : ℤ)
      → req.row Column.main_request_uuid ≡ u
      → truthy u ≡ true
      → IsRequest w.tables u m
      → m Column.pending_requests ≡ Value.int z
      → ((settle_main req w).0 ≡ ok tt)
        × (filter (has Column.uuid u) ((settle_main req w).1.tables Model.request)
            ≡ assign (counted z) m ∷ [])
        × (assign (counted z) m Column.pending_requests ≡ Value.int (pred_ℤ z))
        × (assign (counted z) m Column.status
            ≡ (if eq_ℤ (pred_ℤ z) (pos 0) then completed else m Column.status))
  settle_main_counts w req u m z main true_main h p =
      rw (settle_main_lem w req u m z main true_main h p) (
        refl,
        updated_found w.tables Model.request m (counted z) (has Column.uuid u) (counted_uuid z u)
            h.key h.only,
        ground arith,
        ground arith,
      )

  -- A result and its request, whose main request (if any) is another one with the count z.
  pub record CanFinish (w : World) (r q : Row) (u : Value) : Type 0 where
    pub result_key : IsNumber (r Column.id)
    pub one_result : filter (has Column.id (r Column.id)) (w.tables Model.result) ≡ r ∷ []
    pub request : IsRequest w.tables u q

  abbrev pub finished : Tables → Row → Row → WampMessage → Tables
  finished t r q m = updated (updated t Model.result r (answered m)) Model.request q closed

  module _ (w : World) (r q : Row) (u : Value) (m : WampMessage) (c : CanFinish w r q u) where
    abbrev pub after_result : World
    after_result = record w { tables = updated w.tables Model.result r (answered m) }

    pub saved_result :
        save_result
          (set_attr
            (set_attr (from_db_object r) Column.result (Value.str m.result))
            Column.message
            m.message)
          w
        ≡ (
          ok (
              from_db_object (
                set_column
                  (set_column r Column.result (Value.str m.result))
                  Column.message
                  m.message)),
          after_result,
        )
    unfolding changes_of
    saved_result =
        save_result_lem w r
          (set_column (set_column r Column.result (Value.str m.result)) Column.message m.message)
          (Column.message ∷ Column.result ∷ []) refl c.result_key c.one_result

    pub still-IsRequest : IsRequest after_result.tables u q
    still-IsRequest = record {
      uuid = c.request.uuid;
      same_uuid = c.request.same_uuid;
      key = c.request.key;
      only = c.request.only;
    }

    pub finish_lem :
        truthy (q Column.main_request_uuid) ≡ false
        → finish (from_db_object r) (from_db_object q) m w
          ≡ (ok tt, record w { tables = finished w.tables r q m })
    unfolding finish
    finish_lem no_main = ground (
      arith,
      saved_result,
      close_request_lem after_result u q still-IsRequest,
      settle_main_without (record w { tables = finished w.tables r q m }) (from_db_object q)
          no_main,
    )

    -- with a main request, another row whose count is z
    module _ (v : Value) (p : Row) (z : ℤ) (main : q Column.main_request_uuid ≡ v)
        (named : truthy v ≡ true) (parent : IsRequest w.tables v p)
        (other : has Column.id (q Column.id) p ≡ false)
        (count : p Column.pending_requests ≡ Value.int z) where
      pub parent_kept : IsRequest (finished w.tables r q m) v p
      unfolding has
      parent_kept = record {
        uuid = parent.uuid;
        same_uuid = parent.same_uuid;
        key = parent.key;
        only =
            updated_other w.tables Model.request q p closed (has Column.uuid v) (λ s. refl) other
              parent.only;
      }
