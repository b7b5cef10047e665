-- ===== src/Tests.antt =====
-- Runs of the models on concrete inputs, one file for each part of the program.
mod Arrays
mod Queues
mod Tables
mod Protocol
mod Connections
mod Peers
mod Web
mod Hearsay
mod Contacts
mod Relaying
mod Toy
mod Secrets
mod States
mod Natting
mod Proxies
mod Serving
mod Addresses
