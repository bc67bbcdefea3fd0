-- ===== src/Db.antt =====
-- The database layer: iotronic/db/sqlalchemy/models.py and api.py over an abstract engine.
pub mod Schema
pub mod Engine
pub mod Query
pub mod Filters
pub mod Boards
pub mod Sessions
pub mod Agents
pub mod Plugins
pub mod Services
pub mod Fleets
pub mod Requests
pub mod Laws
pub mod Keeping
pub mod Registry
pub mod Updating
