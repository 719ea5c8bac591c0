-- ===== src/Services/Subscribing.antt =====
-- Subscriptions of nodes to the events of local services.
use ataraxia.Base.{Bool, Text}
use ataraxia.Map
use ataraxia.Map.{Map}
use ataraxia.Services.Defs.{Services}
use ataraxia.Services.Staying.{is_subscribed_in}

-- A node is subscribed to an event of a local service.
abbrev pub is_subscribed : Text → Text → Text → Services → Bool
is_subscribed node service event s = is_subscribed_in node service event s.local
