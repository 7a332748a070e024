-- ===== src/Transfer.antt =====
-- Assignment2/secure_client.c and Assignment2/secure_server.c: the secure file copy.
pub mod Words
pub mod Keys
pub mod Sender
pub mod Receiver
pub mod Header
pub mod Made
pub mod RoundTrip
pub mod Serving
