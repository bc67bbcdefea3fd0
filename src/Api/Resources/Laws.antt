-- ===== src/Api/Resources/Laws.antt =====
-- What a restricted object shows.
use stack4things_openstack_i.Action.{Result, ok, raised}
use stack4things_openstack_i.Api.Resources.{ApiObject, Attributes, Link}
use stack4things_openstack_i.Base.{List, []}

abbrev attributes_shown : Result ApiObject → Attributes
attributes_shown (ok x) = x.attributes
attributes_shown (raised e) = []

abbrev rest_shown : Result ApiObject → Attributes × (List Attributes × List Link)
rest_shown (ok x) = (x.extras, (x.locations, x.links))
rest_shown (raised e) = ([], ([], []))
