-- ===== src/Server/Reach.antt =====
-- Every connection that the server comes to is well formed, whatever the clients send and in
-- whatever order their turns come.
use employee_database.Prelude.{ℕ, ◌≡◌, true, List, subst, sym}
use employee_database.Memory.{ok, Allocator}
use employee_database.Models.{client_connection_init}
use employee_database.Employee.{Employee, DbHeader}
use employee_database.Disk.{File}
use employee_database.Socket.{Socket}
use employee_database.Server.{Server, serve_client}
use employee_database.Server.Connection.{IsConnection, client_connection_init-IsConnection}
use employee_database.Server.Connection.Turn.{Turns, serve_client-Turns}

-- A turn of the client, or anything else that happens meanwhile: the network moves on, and the turns
-- of other clients change the employees, the header and the file.
pub data Step (version : ℕ) (m : Allocator) : Server → Server → Type 0 where
  turn : {s t : Server} → serve_client version m s ≡ ok (true, t) → Step version m s t
  meanwhile :
      (s : Server) (c : Socket) (es : List Employee) (h : DbHeader) (f : File)
      → Step version m s (record { conn = s.conn; socket = c; employees = es; dbhdr = h; file = f })

pub data Reach (version : ℕ) (m : Allocator) (s : Server) : Server → Type 0 where
  here : Reach version m s s
  next : {t u : Server} → Reach version m s t → Step version m t u → Reach version m s u

module _ {version : ℕ} {m : Allocator} where
  Step-IsConnection :
      {s t : Server} → Step version m s t → IsConnection s.conn → IsConnection t.conn
  Step-IsConnection {s} {t} (turn e) i =
      subst (Turns version m s) e (serve_client-Turns version m s i)
  Step-IsConnection (meanwhile s c es h f) i = i

  Reach-keeps : {s t : Server} → Reach version m s t → IsConnection s.conn → IsConnection t.conn
  Reach-keeps here i = i
  Reach-keeps (next r e) i = Step-IsConnection e (Reach-keeps r i)

-- From a connection that client_connection_init made, whatever the client sends and whatever the
-- turns of other clients do to the employees, the header and the file in between, every state that
-- the turns of the client lead to has a connection whose header keeps its 8 bytes and whose cursor
-- leaves room in the header, or in the buffer of a request, for what its state still receives.
pub Reach-IsConnection :
    (version : ℕ) (m : Allocator) (conn_idx : ℕ) (s t : Server)
    → s.conn ≡ client_connection_init m conn_idx
    → Reach version m s t
    → IsConnection t.conn
Reach-IsConnection version m conn_idx s t new r =
    Reach-keeps r (subst IsConnection (sym new) (client_connection_init-IsConnection m conn_idx))
