-- ===== src/Listening/Tests.antt =====
-- A system that grants all but the port.
use hepeng_projects.Prelude.{true, false, some}
use hepeng_projects.Prelude.Sockets.{SocketGrants}
use hepeng_projects.Reactor.Server as Reactor
use hepeng_projects.Proactor.Server as Proactor
use hepeng_projects.Hybrid.Server as Hybrid

abbrev taken_port : SocketGrants
taken_port = record {
  socket = some 3;
  setsockopt = true;
  get_flags = true;
  set_flags = true;
  bind = false;
  listen = true;
}
