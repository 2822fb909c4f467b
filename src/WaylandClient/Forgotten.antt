-- ===== src/WaylandClient/Forgotten.antt =====
-- WaylandClient.cpp: disconnect keeps the pointer to the compositor that it destroys.
use xylitol.Common.{◌≡◌}
use xylitol.WaylandClient.{compositor, Client}
use xylitol.WaylandClient.Ledger.{live}

-- The compositor and its ledger are as before.
record SameCompositor (c c' : Client) : Type 0 where
  member : c'.compositor ≡ c.compositor
  ledger : live compositor c'.events ≡ live compositor c.events
