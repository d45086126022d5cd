-- ===== src/Appearance.antt =====
-- The console's appearance: frontend/src/app/theme-store.ts, accent-presets.ts and the sync of the
-- settings with the control-plane and the font size in frontend/src/domains/connections/.
mod Accents
pub mod Settings
mod Sync
mod FontSize
mod Pickers
mod Sketch
