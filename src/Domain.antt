-- ===== src/Domain.antt =====
-- packages/core/domain/models.py.
pub mod Data
pub mod Keys
pub mod Enums
pub mod Values
pub mod Research
pub mod Service
