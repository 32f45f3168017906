-- ===== src/Ring/Disruption.antt =====
-- A node that joins the ring: `Update` and `Get` of internal/cluster/hashring.go.
use grid_kv.Base.{List}
