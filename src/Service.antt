-- ===== src/Service.antt =====
-- The control protocol of src/modules/service.
pub mod Pipe
