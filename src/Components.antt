-- ===== src/Components.antt =====
-- Small components of the dashboard: the layout of a diagram, dashboard/src/components/agui/
-- flow-diagram.tsx, the command palette, dashboard/src/components/custom/command-palette.tsx, the age
-- of a notification, dashboard/src/components/custom/notification-bell.tsx, and the
-- theme, dashboard/src/lib/theme.tsx.
pub mod Diagram
pub mod Palette
pub mod Age
pub mod Theme
mod Tests
