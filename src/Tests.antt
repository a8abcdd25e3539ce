-- ===== src/Tests.antt =====
-- The modelled code at concrete inputs, and instances of the interfaces.
mod Deniable
mod Devices
mod Keys
mod Sockets
mod Device
mod Client
mod Postgres
mod Connections
mod Requests
mod Storage
mod Values
