-- ===== src/Ring/Removal.antt =====
-- What a removal does to the nodes of a ring set.
use poseidon.Ring.{Ring}
