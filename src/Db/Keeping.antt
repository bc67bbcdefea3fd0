-- ===== src/Db/Keeping.antt =====
-- Invariants of the rows of one table, which reads and writes of other tables keep.
use stack4things_openstack_i.Action.{Exception, World, pure, ◌>>=◌}
use stack4things_openstack_i.Action.Keeps.{
  Keeps, bind-Keeps, catch-Keeps, if-Keeps, lift-Keeps, or_not_found-Keeps, pure-Keeps, raise-Keeps,
  transaction-Keeps,
}
use stack4things_openstack_i.Base.{Bool, List, String, [], false, filter, refl, ◌++◌, ◌∷◌, ◌≡◌}
use stack4things_openstack_i.Db.Engine.{Engine, Outcome, Page, duplicate, refused, stored}
use stack4things_openstack_i.Db.Query.{
  all, create_row, delete_rows, destroy_row, do_update, ensure_uuid, flush, insert_row, new_uuid,
  on_duplicate, on_duplicate_update, one, paginate_query, raise_keyed, update_row, update_rows,
}
use stack4things_openstack_i.Db.Schema.{
  Column, Model, Row, Tables, Value, Values, assigns, same_model,
}

abbrev pub Of : Model → (List Row → Type 0) → Tables → Type 0
Of k Q t = Q (t k)

module _ ⦃E : Engine⦄ {P : Tables → Type 0} where
  pub one-Keeps : (m : Model) (p : Row → Bool) → Keeps P (one m p)
  unfolding one
  one-Keeps m p = record { at = λ w h. h }

  pub all-Keeps : (m : Model) (p : Row → Bool) → Keeps P (all m p)
  unfolding all
  all-Keeps m p = record { at = λ w h. h }

  pub paginate_query-Keeps :
      (m : Model) (g : Page) (p : Row → Bool) → Keeps P (paginate_query m g p)
  unfolding paginate_query
  paginate_query-Keeps m g p = record { at = λ w h. h }

module _ ⦃E : Engine⦄ (k : Model) (Q : List Row → Type 0) where
  pub flush-Keeps :
      {A : Type 0} (o : Outcome A) (w : World)
      → ((a : A) (u : Tables) → o ≡ stored a u → Q (u k))
      → Q (w.tables k)
      → Q ((flush o w).1.tables k)
  flush-Keeps (stored a u) w s h = s a u refl
  flush-Keeps (duplicate cs) w s h = h
  flush-Keeps refused w s h = h

  module _ (m : Model) (apart : same_model m k ≡ false) where
    pub insert_row-Keeps : (vs : Values) → Keeps (Of k Q) (insert_row m vs)
    unfolding insert_row
    insert_row-Keeps vs = record {
      at = λ w h.
          flush-Keeps (E.insert w.tables m vs) w
            (λ r u e. rw ((E.insert_stored w.tables u m vs r e).1, apart) h) h;
    }

    update_rows-Keeps : (p : Row → Bool) (vs : Values) → Keeps (Of k Q) (update_rows m p vs)
    unfolding update_rows
    update_rows-Keeps p vs = record {
      at = λ w h.
          flush-Keeps (E.update w.tables m p vs) w
            (λ n u e. rw ((E.update_stored w.tables u m p vs n e).1, apart) h) h;
    }

  -- rows may go together with the deleted rows of another table
  pub delete_rows-Keeps :
      ((q : Row → Bool) (rows : List Row) → Q rows → Q (filter q rows))
      → (m : Model) (p : Row → Bool) → Keeps (Of k Q) (delete_rows m p)
  unfolding delete_rows
  delete_rows-Keeps sub m p = record {
    at = λ w h.
        flush-Keeps (E.delete w.tables m p) w
          (λ n u e.
            let d = (E.delete_stored w.tables u m p n e).2 k in rw d.1 (sub d.0 (w.tables k) h))
          h;
  }

module _ {P : Tables → Type 0} where
  raise_keyed-Keeps :
      {A : Type 0} (c : Column) (vs : Values) (e : Value → Exception)
      → Keeps P (raise_keyed {A = A} c vs e)
  raise_keyed-Keeps c vs e = if-Keeps (assigns c vs) _ _ (raise-Keeps _) (raise-Keeps _)

  pub on_duplicate-Keeps : {A : Type 0} (e x : Exception) → Keeps P (on_duplicate {A = A} e x)
  on_duplicate-Keeps e (Exception.db_duplicate_entry cs) = raise-Keeps e
  on_duplicate-Keeps e x = raise-Keeps x

  on_duplicate_update-Keeps :
      {A : Type 0} (f : Value → Exception) (vs : Values) (x : Exception)
      → Keeps P (on_duplicate_update {A = A} f vs x)
  on_duplicate_update-Keeps f vs (Exception.db_duplicate_entry cs) =
      search (if-Keeps, raise_keyed-Keeps, raise-Keeps)
  on_duplicate_update-Keeps f vs x = raise-Keeps x

module _ ⦃E : Engine⦄ {P : Tables → Type 0} where
  pub ensure_uuid-Keeps : (vs : Values) → Keeps P (ensure_uuid vs)
  unfolding ensure_uuid new_uuid
  ensure_uuid-Keeps vs =
      let added : String → Values = λ u. vs ++ (Column.uuid, Value.str u) ∷ [] in
      if-Keeps (assigns Column.uuid vs) (pure vs) (new_uuid >>= λ u. pure (added u)) (pure-Keeps vs)
        (bind-Keeps new_uuid (λ u. pure (added u)) (record { at = λ w h. h }) (λ u. pure-Keeps _))

module _ ⦃E : Engine⦄ (k : Model) (Q : List Row → Type 0) (m : Model) where
  module _ (apart : same_model m k ≡ false) where
    pub do_update-Keeps :
        (nf : Value → Exception) (i : Value) (vs : Values) → Keeps (Of k Q) (do_update m nf i vs)
    unfolding do_update
    do_update-Keeps nf i vs = transaction-Keeps _ (
        bind-Keeps _ _ (lift-Keeps _) (λ p.
          bind-Keeps _ _ (or_not_found-Keeps _ _ (one-Keeps m p))
            (λ r. bind-Keeps _ _ (update_rows-Keeps k Q m apart _ vs) (λ _. pure-Keeps _))))

    pub update_row-Keeps :
        (nf exists : Value → Exception) (i : Value) (vs : Values)
        → Keeps (Of k Q) (update_row m nf exists i vs)
    unfolding update_row
    update_row-Keeps nf exists i vs =
        search (if-Keeps, raise-Keeps, catch-Keeps, do_update-Keeps, on_duplicate_update-Keeps)

    pub create_row-Keeps :
        (exists : Value → Exception) (vs : Values) → Keeps (Of k Q) (create_row m exists vs)
    unfolding create_row
    create_row-Keeps exists vs =
        bind-Keeps _ _ (ensure_uuid-Keeps vs)
          (λ us. catch-Keeps _ _ (insert_row-Keeps k Q m apart us) (on_duplicate-Keeps _))

  pub destroy_row-Keeps :
      ((q : Row → Bool) (rows : List Row) → Q rows → Q (filter q rows))
      → (nf : Value → Exception) (i : Value) → Keeps (Of k Q) (destroy_row m nf i)
  unfolding destroy_row
  destroy_row-Keeps sub nf i = transaction-Keeps _ (
      bind-Keeps _ _ (lift-Keeps _) (λ p.
        bind-Keeps _ _ (or_not_found-Keeps _ _ (one-Keeps m p))
          (λ r. bind-Keeps _ _ (delete_rows-Keeps k Q sub m p) (λ _. pure-Keeps _))))
