-- ===== src/Ids/Tests.antt =====
-- Identifiers with small fields.
use poseidon.Ids.{MessageId}

abbrev id : MessageId
id = record { time = 1700000000; nanos = 999999999; count = 42 }
