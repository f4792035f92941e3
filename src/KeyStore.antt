-- ===== src/KeyStore.antt =====
-- internal/kms/local/local.go: the encrypted store of provider keys.
mod Envelope
mod Backend
mod Store
mod Migrate
mod Opened
mod Preserved
mod Tests
