-- ===== src/Translate.antt =====
-- internal/translate: what happens to a request before it goes to a model.
pub mod Modality
