-- ===== src/Api.antt =====
-- iotronic/api: the REST API.
pub mod Utils
pub mod Resources
pub mod Listing
pub mod Boards
pub mod Plugins
pub mod Services
pub mod Fleets
pub mod Webservices
pub mod Ports
pub mod Requests
pub mod Router
