-- ===== src/Api/Listing/Pages.antt =====
-- What a listing may ask of the database.
use stack4things_openstack_i.Action.{
  Action, Exception, Result, World, continue, ok, pure, raise, raised,
}
use stack4things_openstack_i.Api.Listing.{Query, find_marker, get_page}
use stack4things_openstack_i.Api.Utils.{ApiConf, validate_limit, validate_sort_dir}
use stack4things_openstack_i.Api.Utils.Laws.{validate_limit_bounds, validate_sort_dir_texts}
use stack4things_openstack_i.Base.{
  Bool, List, Option, String, any, ap, false, if◌then◌else◌, inl, inr, refl, some, str_eq, true, ℕ,
  ◌<◌, ◌∙◌, ◌≡◌, ◌≤◌, ◌⊎◌,
}
use stack4things_openstack_i.Db.Engine.{Engine, Page}
use stack4things_openstack_i.Db.Schema.{Row, Value}

continue_ok :
    {A B : Type 0} (r : Result A) (f : A → Action B) (w v : World) (b : B)
    → continue r f w ≡ (ok b, v)
    → (a : A) × (r ≡ ok a) × (f a w ≡ (ok b, v))
continue_ok (ok a) f w v b h = (a, refl, h)
continue_ok (raised e) f w v b h = cc

abbrev page_of : ℕ → Option Value → String → String → Page
page_of n m key dir = record {
  limit = some n;
  marker = m;
  sort_key = some key;
  sort_dir = some dir;
}

page_found :
    (bad : Bool) (p page : Page) (e : Exception) (w v : World)
    → (if bad then raise e else pure p) w ≡ (ok page, v)
    → (bad ≡ false) × (page ≡ p)
page_found true p page e w v h = cc
page_found false p page e w v h = (refl, cc)

module _ ⦃E : Engine⦄ (conf : ApiConf) where
  -- A page that passes the checks has a limit within the configured maximum and not zero where the
  -- maximum is not, goes up or down, and is not sorted by a refused key.
  pub get_page_bounds :
      (f : Value → Action Row) (barred : List String) (q : Query) (w v : World) (page : Page)
      → get_page conf f barred q w ≡ (ok page, v)
      → 0 < conf.max_limit
      → ((n : ℕ) × (page.limit ≡ some n) × (0 < n) × (n ≤ conf.max_limit))
        × (page.sort_key ≡ some q.sort_key)
        × (any (str_eq q.sort_key) barred ≡ false)
        × ((page.sort_dir ≡ some "asc") ⊎ (page.sort_dir ≡ some "desc"))
  unfolding get_page
  get_page_bounds f barred q w v page h pos_max =
      let (n, hn, h1) = continue_ok (validate_limit conf.max_limit q.limit) _ w v page h in
      let (d, hd, h2) = continue_ok (validate_sort_dir q.sort_dir) _ w v page h1 in
      let (m, hm, h3) =
        continue_ok (find_marker conf f q.marker w).0 _ (find_marker conf f q.marker w).1 v page
          h2 in
      let (good, e) =
        page_found (any (str_eq q.sort_key) barred) (page_of n m q.sort_key d) page
          Exception.invalid_parameter_value (find_marker conf f q.marker w).1 v h3 in
      let (same, dirs) = validate_sort_dir_texts q.sort_dir d hd in
      (
        (
          n,
          ap (λ (p : Page). p.limit) e,
          (validate_limit_bounds conf.max_limit n q.limit pos_max hn).0,
          (validate_limit_bounds conf.max_limit n q.limit pos_max hn).1,
        ),
        ap (λ (p : Page). p.sort_key) e,
        good,
        (elim dirs [
          | inl a ↦ inl (ap (λ (p : Page). p.sort_dir) e ∙ ap some (same ∙ a))
          | inr a ↦ inr (ap (λ (p : Page). p.sort_dir) e ∙ ap some (same ∙ a))
        ]),
      )
