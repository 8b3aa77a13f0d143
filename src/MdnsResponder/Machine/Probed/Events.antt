-- ===== src/MdnsResponder/Machine/Probed/Events.antt =====
-- Every event keeps the count of the probes for the host name.
use air_show.Dns.Message.{Message}
