-- ===== src/Models.antt =====
-- The rows of the local database that the API server keeps, backend/api/models, one file for each
-- group of tables, and the database as the list of rows of each table.
mod Plans
mod Assets
pub use Plans.*
pub use Assets.*
