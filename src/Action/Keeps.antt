-- ===== src/Action/Keeps.antt =====
-- Invariants of the tables, with one rule for each way to build an action.
use stack4things_openstack_i.Action.{
  Action, Call, Exception, Reply, Result, World, answer, call, catch, choice, continue, lift,
  no_result, ok, or_not_found, pure, raise, raised, rescue, roll_back, transaction, ◌>>=◌,
}
use stack4things_openstack_i.Base.{Bool, List, [], false, if◌then◌else◌, true, ◌∷◌}
use stack4things_openstack_i.Db.Schema.{Tables}

-- `m` keeps `P` of the tables, whether it returns or raises
pub record Keeps {A : Type 0} (P : Tables → Type 0) (m : Action A) : Type 0 where
  pub at : (w : World) → P w.tables → P (m w).1.tables

module _ (P : Tables → Type 0) where
  pub continue-Keeps :
      {A B : Type 0} (r : Result A) (f : A → Action B) (w : World)
      → ((a : A) → Keeps P (f a))
      → P w.tables
      → P (continue r f w).1.tables
  continue-Keeps (ok a) f w kf h = (kf a).at w h
  continue-Keeps (raised e) f w kf h = h

  rescue-Keeps :
      {A : Type 0} (r : Result A) (g : Exception → Action A) (w : World)
      → ((e : Exception) → Keeps P (g e))
      → P w.tables
      → P (rescue r g w).1.tables
  rescue-Keeps (ok a) g w kg h = h
  rescue-Keeps (raised e) g w kg h = (kg e).at w h

  roll_back-Keeps :
      {A : Type 0} (r : Result A) (t : Tables) (w : World)
      → P t
      → P w.tables
      → P (roll_back t r w).1.tables
  roll_back-Keeps (ok a) t w ht h = h
  roll_back-Keeps (raised e) t w ht h = ht

  answer-Keeps : (rs : List Reply) (c : Call) (w : World) → P w.tables → P (answer rs c w).1.tables
  answer-Keeps [] c w h = h
  answer-Keeps (Reply.replies m ∷ rs) c w h = h
  answer-Keeps (Reply.fails e ∷ rs) c w h = h

module _ {P : Tables → Type 0} where
  pub pure-Keeps : {A : Type 0} (a : A) → Keeps P (pure a)
  pure-Keeps a = record { at = λ w h. h }

  pub raise-Keeps : {A : Type 0} (e : Exception) → Keeps P (raise {A = A} e)
  raise-Keeps e = record { at = λ w h. h }

  pub lift-Keeps : {A : Type 0} (r : Result A) → Keeps P (lift r)
  lift-Keeps r = record { at = λ w h. h }

  pub if-Keeps :
      {A : Type 0} (b : Bool) (m n : Action A)
      → Keeps P m
      → Keeps P n
      → Keeps P (if b then m else n)
  if-Keeps true m n km kn = km
  if-Keeps false m n km kn = kn

  pub bind-Keeps :
      {A B : Type 0} (m : Action A) (f : A → Action B)
      → Keeps P m
      → ((a : A) → Keeps P (f a))
      → Keeps P (m >>= f)
  bind-Keeps m f km kf = record { at = λ w h. continue-Keeps P (m w).0 f (m w).1 kf (km.at w h) }

  pub catch-Keeps :
      {A : Type 0} (m : Action A) (g : Exception → Action A)
      → Keeps P m
      → ((e : Exception) → Keeps P (g e))
      → Keeps P (catch m g)
  catch-Keeps m g km kg = record { at = λ w h. rescue-Keeps P (m w).0 g (m w).1 kg (km.at w h) }

  pub transaction-Keeps : {A : Type 0} (m : Action A) → Keeps P m → Keeps P (transaction m)
  transaction-Keeps m km = record {
    at = λ w h. roll_back-Keeps P (m w).0 w.tables (m w).1 h (km.at w h);
  }

  pub call-Keeps : (c : Call) → Keeps P (call c)
  unfolding call
  call-Keeps c = record { at = λ w h. answer-Keeps P w.inbox c w h }

  pub choice-Keeps : {A : Type 0} (xs : List A) → Keeps P (choice xs)
  unfolding choice
  choice-Keeps xs = record { at = λ w h. h }

  no_result-Keeps : {A : Type 0} (e x : Exception) → Keeps P (no_result {A = A} e x)
  no_result-Keeps e Exception.no_result_found = raise-Keeps e
  no_result-Keeps e x = raise-Keeps x

  pub or_not_found-Keeps :
      {A : Type 0} (m : Action A) (e : Exception) → Keeps P m → Keeps P (or_not_found m e)
  or_not_found-Keeps m e km = catch-Keeps m (no_result e) km (no_result-Keeps e)

pub ruleset keeps_rules = (
  pure-Keeps, raise-Keeps, lift-Keeps, if-Keeps, bind-Keeps, catch-Keeps, transaction-Keeps,
  call-Keeps, choice-Keeps, or_not_found-Keeps,
)
