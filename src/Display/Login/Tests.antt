-- ===== src/Display/Login/Tests.antt =====
-- display/session.go: the theorem on a concrete user.
use atmail.Prelude.{none, []}
use atmail.Display.Login.{Boxes, Client}

abbrev client : Client
client = record { username = []; mailboxes = none; user_boxes = []; rate_limiter = [] }
