-- ===== src/Display/Receiving/Tests.antt =====
-- cmd/atmaild/main.go: the theorem on a concrete email: the first one of a user.
use atmail.Prelude.{◌≡◌, refl, false, some, [], lookup}
use atmail.Display.Boxes.{ok, find_id, delete, delete_id, clean}
use atmail.Display.Boxes.Examples.{server, Agrees-server}
use atmail.Display.Receiving.{on_receive}
use atmail.Display.Receiving.Wrong.{on_receive-delete}

on_receive-delete_example :
    ((on_receive [] 1 server).1 ≡ false)
    × ((lookup [] (on_receive [] 1 server).0.boxes ≡ some (record { id = 1; name = [] }))
        × ((delete [] (on_receive [] 1 server).0).1 ≡ ok)
        × ((delete [] (on_receive [] 1 server).0).0.mailboxes ≡ delete_id 1 server.mailboxes)
        × ((delete [] (on_receive [] 1 server).0).0.tables ≡ clean 1 server.tables))
unfolding find_id
on_receive-delete_example = on_receive-delete 1 server Agrees-server refl
