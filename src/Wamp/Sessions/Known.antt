-- ===== src/Wamp/Sessions/Known.antt =====
-- A board that has a row is known, as connection needs it, where no board has two valid sessions.
use stack4things_openstack_i.Base.Counting.{All-filter, filter-only}
use stack4things_openstack_i.Action.{World}
use stack4things_openstack_i.Base.{
  All, Bool, Bool-cases, List, String, [], ap, arith, eq_iff, filter, inl, inr, length, refl, subst,
  sym, true, ◌∷◌, ◌≡◌, ◌≤◌,
}
use stack4things_openstack_i.Db.Engine.{Engine}
use stack4things_openstack_i.Db.Laws.{IsNumber, IsNumber-IsScalar, has_self}
use stack4things_openstack_i.Db.Query.{has, one}
use stack4things_openstack_i.Db.Schema.{Column, Model, Row, Value, eq_value}
use stack4things_openstack_i.Objects.Laws.{IsUuid}
use stack4things_openstack_i.Wamp.Sessions.Joining.{HasKey, IsKnown, valid_of}
use stack4things_openstack_i.Wamp.Sessions.Single.{IsSingle}

eq_value_text : (v : Value) (s : String) → eq_value v (Value.str s) ≡ true → v ≡ Value.str s
unfolding eq_value
eq_value_text Value.null s h = cc
eq_value_text (Value.bool b) s h = cc
eq_value_text (Value.int z) s h = cc
eq_value_text (Value.str t) s h = ap Value.str ((eq_iff t s).0 h)
eq_value_text (Value.dict f) s h = cc

filter_first : (p : Row → Bool) (r : Row) (rs rows : List Row) → filter p rows ≡ r ∷ rs → p r ≡ true
unfolding filter
filter_first p r rs [] h = cc
filter_first p r rs (q ∷ rows) h = elim (Bool-cases (p q)) [
  | inl e ↦
      let here : q ∷ filter p rows ≡ r ∷ rs = ground (arith, e, h) in
      let same : q ≡ r = cc in rw (sym same) e
  | inr e ↦ filter_first p r rs rows (ground (arith, e, h))
]

module _ ⦃E : Engine⦄ (w : World) (single : IsSingle (w.tables Model.session)) where
  one_of_key :
      (v : Value) → IsNumber v → length (filter (has Column.id v) (w.tables Model.session)) ≤ 1
  one_of_key (Value.int z) n = single.one_key z
  one_of_key Value.null n = absurd n
  one_of_key (Value.bool b) n = absurd n
  one_of_key (Value.str s) n = absurd n
  one_of_key (Value.dict f) n = absurd n

  pub session-HasKey :
      (p : Row → Bool) (r : Row) → filter p (w.tables Model.session) ≡ r ∷ [] → HasKey w r
  session-HasKey p r h =
      let numbers : All (λ q. IsNumber (q Column.id)) (r ∷ []) =
        subst (All (λ q. IsNumber (q Column.id))) h (All-filter _ p _ single.numbers) in
      (
        numbers.0,
        filter-only p (has Column.id (r Column.id)) r (w.tables Model.session) h
            (has_self Column.id r (IsNumber-IsScalar (r Column.id) numbers.0))
            (one_of_key (r Column.id) numbers.0),
      )

  sessions-HasKey :
      (p : Row → Bool) (rs : List Row)
      → filter p (w.tables Model.session) ≡ rs
      → length rs ≤ 1
      → All (HasKey w) rs
  sessions-HasKey p [] h l = tt
  sessions-HasKey p (r ∷ []) h l = (session-HasKey p r h, tt)
  sessions-HasKey p (r ∷ q ∷ rs) h l = absurd (omega arith)

  pub board-Known :
      (u : String) (b : Row)
      → IsUuid (Value.str u)
      → filter (has Column.uuid (Value.str u)) (w.tables Model.board) ≡ b ∷ []
      → IsNumber (b Column.id)
      → IsKnown w (Value.str u) b (filter (valid_of (Value.str u)) (w.tables Model.session))
  unfolding has
  board-Known u b i one n = record {
    uuid = i;
    one_board = one;
    same_uuid =
        eq_value_text (b Column.uuid) u
          (filter_first (has Column.uuid (Value.str u)) b [] (w.tables Model.board) one);
    board_key = n;
    valid_sessions = refl;
    at_most_one = single.one_valid u;
    session_keys =
        sessions-HasKey (valid_of (Value.str u))
          (filter (valid_of (Value.str u)) (w.tables Model.session)) refl (single.one_valid u);
  }
