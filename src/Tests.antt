-- ===== src/Tests.antt =====
-- Runs of the model on concrete data, and each theorem at an input that meets its hypotheses.
mod Thousandths
mod Deck
mod Auth
mod Permissions
mod Client
mod Panel
mod Register
mod Catalogue
mod Dashboard
mod Contract
mod Pages
