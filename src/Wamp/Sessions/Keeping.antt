-- ===== src/Wamp/Sessions/Keeping.antt =====
-- The actions on sessions keep at most one valid session of each board.
use stack4things_openstack_i.Action.{Action, Exception, Result, lift, ok, raised, ◌>>=◌}
use stack4things_openstack_i.Action.Keeps.{
  Keeps, bind-Keeps, catch-Keeps, if-Keeps, lift-Keeps, or_not_found-Keeps, pure-Keeps,
  transaction-Keeps,
}
use stack4things_openstack_i.Base.{Bool, List, Option, [], false, none, refl, some, ◌∷◌}
use stack4things_openstack_i.Db.Boards.{get_board_by_uuid, update_board}
use stack4things_openstack_i.Db.Engine.{Engine}
use stack4things_openstack_i.Db.Keeping.{Of, flush-Keeps, one-Keeps, update_row-Keeps}
use stack4things_openstack_i.Db.Query.{has, update_rows}
use stack4things_openstack_i.Db.Schema.{Column, Model, Row, Tables, Value, Values}
use stack4things_openstack_i.Db.Sessions.{get_valid_wpsessions_list, or_none}
use stack4things_openstack_i.Action.{Result, World, continue, ok, pure, raised}
use stack4things_openstack_i.Base.{Option, String, Bool, some, none, true, false, if◌then◌else◌}
use stack4things_openstack_i.Action.{Exception, raise}
use stack4things_openstack_i.Db.Query.{is_uuid_like}
use stack4things_openstack_i.Db.Sessions.{get_session_by_board_uuid, get_session_by_id}
use stack4things_openstack_i.Objects.{number_text}
use stack4things_openstack_i.Wamp.Sessions.{numbers_of}
use stack4things_openstack_i.Objects.{
  Object, changes_of, from_db_object, get_session, load, obj_get_changes, save_board, save_session,
  session_object, set_attr,
}
use stack4things_openstack_i.Wamp.Sessions.{
  board_on_leave, close_elem, close_session, difference, for_each, update_sessions,
}
use stack4things_openstack_i.Wamp.Sessions.Leaving.{invalid}
use stack4things_openstack_i.Wamp.Sessions.Single.{IsSingle, rewrite-IsSingle}

module _ ⦃E : Engine⦄ where
  -- the invariant, of the tables
  abbrev pub Single : Tables → Type 0
  Single = Of Model.session IsSingle

  mark-Keeps : (p : Row → Bool) → Keeps Single (update_rows Model.session p invalid)
  unfolding update_rows
  mark-Keeps p = record {
    at = λ w h.
        flush-Keeps Model.session IsSingle (E.update w.tables Model.session p invalid) w
          (λ n u e.
            rw (E.update_stored w.tables u Model.session p invalid n e).1
              (rewrite-IsSingle p (w.tables Model.session) h))
          h;
  }

  -- a session is saved as not valid
  save_session-Keeps :
      (r : Row)
      → Keeps Single (save_session (set_attr (from_db_object r) Column.valid (Value.bool false)))
  unfolding save_session changes_of
  save_session-Keeps r =
      bind-Keeps _ _
        (transaction-Keeps _ (
          bind-Keeps _ _ (lift-Keeps _) (λ p.
            bind-Keeps _ _ (or_not_found-Keeps _ _ (one-Keeps Model.session p))
              (λ q. bind-Keeps _ _ (mark-Keeps _) (λ _. pure-Keeps _)))))
        (λ _. pure-Keeps _)

  update_board-Keeps : (i : Value) (vs : Values) → Keeps Single (update_board i vs)
  unfolding update_board
  update_board-Keeps =
      update_row-Keeps Model.session IsSingle Model.board refl Exception.board_not_found
        Exception.board_already_exists

  pub save_board-Keeps : (o : Object) → Keeps Single (save_board o)
  unfolding save_board
  save_board-Keeps o =
      bind-Keeps (update_board (o.row Column.uuid) (obj_get_changes o)) _
        (update_board-Keeps (o.row Column.uuid) (obj_get_changes o))
        (λ _. pure-Keeps (from_db_object o.row))

  pub load-Keeps : {P : Tables → Type 0} (m : Action Row) → Keeps P m → Keeps P (load m)
  unfolding load
  load-Keeps m km = bind-Keeps m _ km (λ r. pure-Keeps (from_db_object r))

  pub get_board_by_uuid-Keeps : {P : Tables → Type 0} (u : Value) → Keeps P (get_board_by_uuid u)
  unfolding get_board_by_uuid
  get_board_by_uuid-Keeps u = or_not_found-Keeps _ _ (one-Keeps Model.board _)

  close_session-Keeps : (r : Row) → Keeps Single (close_session (from_db_object r))
  unfolding close_session
  close_session-Keeps r = search (
    if-Keeps, bind-Keeps, pure-Keeps, save_session-Keeps, load-Keeps, get_board_by_uuid-Keeps,
    save_board-Keeps,
  )

  found-Keeps :
      {A : Type 0} (o : Result (Option Row)) (f : Object → Action A)
      → ((r : Row) → Keeps Single (f (from_db_object r)))
      → Keeps Single (lift o >>= session_object >>= f)
  found-Keeps (ok none) f k = record { at = λ w h. h }
  found-Keeps (ok (some r)) f k = k r
  found-Keeps (raised e) f k = record { at = λ w h. h }

  loaded-Keeps :
      {A : Type 0} {P : Tables → Type 0} (m : Action Row) (f : Object → Action A)
      → Keeps P m
      → ((r : Row) → Keeps P (f (from_db_object r)))
      → Keeps P (load m >>= f)
  unfolding load
  loaded-Keeps {P = P} m f km k = record { at = λ w h. go (m w).0 (m w).1 (km.at w h) }
    where
      go :
          (r : Result Row) (v : World)
          → P v.tables
          → P (
              (continue
                (continue r (λ a. pure (from_db_object a)) v).0
                f
                (continue r (λ a. pure (from_db_object a)) v).1).1.tables)
      go (ok a) v h = (k a).at v h
      go (raised e) v h = h

  by_number-Keeps :
      {A : Type 0} (n : String) (f : Object → Action A)
      → ((r : Row) → Keeps Single (f (from_db_object r)))
      → Keeps Single (get_session_by_id (Value.str n) >>= session_object >>= f)
  unfolding get_session_by_id
  by_number-Keeps n f k = record {
    at = λ w h.
        (found-Keeps
            (or_none (E.select w.tables Model.session (has Column.session_id (Value.str n)))) f
            k).at
          w h;
  }

  get_session-Keeps :
      {A : Type 0} (s : Value) (f : Object → Action A)
      → ((r : Row) → Keeps Single (f (from_db_object r)))
      → Keeps Single (get_session s >>= f)
  unfolding get_session get_session_by_board_uuid
  get_session-Keeps {A = A} s f k = go (number_text s) (is_uuid_like s)
    where
      go :
          (number : Option String) (like : Bool)
          → Keeps Single (
              (elim number [
                | some n ↦ (do found ← get_session_by_id (Value.str n); session_object found)
                | none ↦
                    if like
                    then load (get_session_by_board_uuid s true)
                    else raise (Exception.invalid_identity s)
              ])
              >>= f)
      go (some n) like = by_number-Keeps n f k
      go none true = loaded-Keeps _ f (or_not_found-Keeps _ _ (one-Keeps Model.session _)) k
      go none false = record { at = λ w h. h }

  close_elem-Keeps : (s : Value) → Keeps Single (close_elem s)
  unfolding close_elem
  close_elem-Keeps s = get_session-Keeps s close_session close_session-Keeps

  pub board_on_leave-Keeps : (s : Value) → Keeps Single (board_on_leave s)
  unfolding board_on_leave close_elem
  board_on_leave-Keeps s = catch-Keeps _ _ (close_elem-Keeps s) (λ e. pure-Keeps tt)

  pub for_each-Keeps :
      {A : Type 0} {P : Tables → Type 0} (xs : List A) (f : A → Action (Unit {0}))
      → ((x : A) → Keeps P (f x))
      → Keeps P (for_each xs f)
  for_each-Keeps [] f k = pure-Keeps tt
  for_each-Keeps (x ∷ xs) f k = bind-Keeps (f x) _ (k x) (λ _. for_each-Keeps xs f k)

  pub update_sessions-Keeps :
      (listed : List Value) (agent : Value) → Keeps Single (update_sessions listed agent)
  unfolding update_sessions get_valid_wpsessions_list
  update_sessions-Keeps listed agent =
      bind-Keeps (get_valid_wpsessions_list agent) _ (record { at = λ w h. h })
        (λ rows.
          bind-Keeps (lift (numbers_of rows)) _ (lift-Keeps _)
            (λ numbers. for_each-Keeps (difference numbers listed) close_elem close_elem-Keeps))
