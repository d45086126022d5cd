-- ===== src/Layout.antt =====
-- The frame around the screens: frontend/src/shared/layout.
mod Shell
