-- ===== src/Controls.antt =====
-- The operator's control file: api_server/controls.py, which reads and writes it for the GUI.
pub mod Values
pub mod State
pub mod Keys
pub mod Defaults
pub mod Read
pub mod Write
pub mod Pins
pub mod Bounds
pub mod Validity
pub mod Rules
pub mod RoundTrip
pub mod Valid
pub mod RulesKept
pub mod Outcome
pub mod Setters
pub mod Commands
pub mod PreservedBlocks
pub mod Preserved
pub mod NextReading
pub mod Permission
pub mod Guards
mod Tests
