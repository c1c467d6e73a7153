-- ===== src/Certgen.antt =====
-- internal/certgen: the certificate service.
pub mod San
pub mod Reissue
pub mod Api
pub mod Server
pub mod Start
