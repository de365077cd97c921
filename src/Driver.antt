-- ===== src/Driver.antt =====
-- lib/lib/amqp_driver.js: the connection to an AMQP server that is made again when it is lost.
pub mod Amqp
