-- ===== src/Conductor.antt =====
-- iotronic/conductor: the conductor's endpoints and its helpers.
pub mod Version
pub mod Requests
pub mod Ports
pub mod Services
pub mod Boards
pub mod Guards
pub mod Plugins
pub mod Calls
pub mod Keeping
pub mod Dns
pub mod Webservices
pub mod Neutron
pub mod Vifs
pub mod Provisioner
pub mod Registration
pub mod RpcApi
