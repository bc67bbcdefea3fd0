-- ===== src/Api/Resources/Kinds.antt =====
-- iotronic/api/controllers/v1: the classes of the resources, with the fields that they expose.
use stack4things_openstack_i.Api.Resources.{Kind}
use stack4things_openstack_i.Base.{[], false, true, ◌∷◌}
use stack4things_openstack_i.Db.Schema.{Column}

abbrev pub plugin_kind : Kind
plugin_kind = record {
  resource = "plugins";
  exposed =
      Column.uuid ∷ Column.name ∷ Column.owner ∷ Column.public ∷ Column.code ∷ Column.callable
      ∷ Column.parameters ∷ Column.extra ∷ [];
  linked = true;
}

abbrev pub service_kind : Kind
service_kind = record {
  resource = "services";
  exposed =
      Column.uuid ∷ Column.name ∷ Column.project ∷ Column.port ∷ Column.protocol ∷ Column.extra
      ∷ [];
  linked = true;
}

abbrev pub fleet_kind : Kind
fleet_kind = record {
  resource = "fleets";
  exposed = Column.uuid ∷ Column.name ∷ Column.project ∷ Column.description ∷ Column.extra ∷ [];
  linked = true;
}

abbrev pub webservice_kind : Kind
webservice_kind = record {
  resource = "webservices";
  exposed =
      Column.uuid ∷ Column.port ∷ Column.name ∷ Column.board_uuid ∷ Column.secure ∷ Column.extra
      ∷ [];
  linked = true;
}

abbrev pub port_kind : Kind
port_kind = record {
  resource = "ports";
  exposed =
      Column.uuid ∷ Column.vif_name ∷ Column.network ∷ Column.mac_add ∷ Column.ip
      ∷ Column.board_uuid ∷ [];
  linked = true;
}

abbrev pub request_kind : Kind
request_kind = record {
  resource = "requests";
  exposed =
      Column.uuid ∷ Column.destination_uuid ∷ Column.main_request_uuid ∷ Column.pending_requests
      ∷ Column.status ∷ Column.project ∷ Column.type ∷ Column.action ∷ [];
  linked = true;
}

abbrev pub result_kind : Kind
result_kind = record {
  resource = "results";
  exposed = Column.board_uuid ∷ Column.request_uuid ∷ Column.result ∷ Column.message ∷ [];
  linked = false;
}

abbrev pub enabled_webservice_kind : Kind
enabled_webservice_kind = record {
  resource = "EnabledWebservices";
  exposed =
      Column.board_uuid ∷ Column.http_port ∷ Column.https_port ∷ Column.dns ∷ Column.zone
      ∷ Column.extra ∷ [];
  linked = false;
}
