-- ===== src/Server/Reply.antt =====
-- src/dw_node.c, reply(): the answer to a request, which then is done.
use distwalk_iouring.Prelude.{ℕ, ◌+◌, leb, ◌==◌, if◌then◌else◌}
use distwalk_iouring.Prelude.Int.{ℤ, pos, ◌-ℤ◌}
use distwalk_iouring.Prelude.Run.{Run, ok, fault, ◌>>=◌, ◌>>◌, check}
use distwalk_iouring.Memory.{Bytes, read_u8, read_u32, write_u32}
use distwalk_iouring.Message.{command_value, eom, sizeof_command, message_size, message_first_cmd}
use distwalk_iouring.Connection.{
  ReplyMode, reply_mode_normal, reply_mode_sendfile, reply_mode_other, conn_prepare_send_message,
}
use distwalk_iouring.Connection.Send.{conn_start_send, conn_start_sendfile}
use distwalk_iouring.Request.{Request}
use distwalk_iouring.Conns.{conn_req_remove}
use distwalk_iouring.Server.{Server, Host, tick, home, conn_of, req_of, set_conn, set_req}

abbrev pub max_storage_devices : ℕ
max_storage_devices = 16

-- reply_opts_t
pub record ReplyOpts : Type 0 where
  pub resp_size : ℕ
  pub mode : ReplyMode
  pub dev_id : ℕ

abbrev pub mode_of : ℕ → ReplyMode
mode_of v =
    if v == 0 then reply_mode_normal else if v == 1 then reply_mode_sendfile else reply_mode_other v

unfoldable pub reply_opts : Bytes → ℕ → Run ReplyOpts
reply_opts b cmd = do
  resp_size ← read_u32 b (cmd + sizeof_command)
  mode ← read_u32 b (cmd + sizeof_command + 4)
  dev_id ← read_u8 b (cmd + sizeof_command + 8)
  ok (record { resp_size = resp_size; mode = mode_of mode; dev_id = dev_id })

-- m->status
abbrev pub status_at : ℕ → ℕ
status_at m = m + 8

-- The message of the reply at `m_dst`, to the message at `m`.
unfoldable pub fill_reply : Bytes → ℕ → Bytes → ℕ → ℕ → Run Bytes
fill_reply b m dst m_dst resp_size = do
  req_id ← read_u32 b m
  dst1 ← write_u32 dst m_dst req_id
  dst2 ← write_u32 dst1 (m_dst + 4) resp_size
  dst3 ← write_u32 dst2 (message_first_cmd m_dst) (command_value eom)
  status ← read_u32 b (status_at m)
  write_u32 dst3 (status_at m_dst) status

-- req->sendfile_fd and what goes with it
abbrev pub with_file : Request → ℤ → ℕ → Request
with_file q fd size = record q { sendfile_fd = fd; sendfile_offset = 0; sendfile_size = size }

-- The switch of reply(): what is returned, and the worker.
unfoldable pub send_reply : Host → Server → ℕ → ℕ → ReplyOpts → Run (ℤ × Server)
send_reply h s r c opts =
    let started =
      conn_start_send (conn_of s c) (req_of s r).target (h.send s.used) (h.ssl_write s.used) in
    let normal = started >>= λ (rv, conn). ok (rv, set_conn (tick s) c conn) in
    let q = with_file (req_of s r) (h.storage_fd opts.dev_id) opts.resp_size in
    let file_started =
      conn_start_sendfile (conn_of s c) q.target q.sendfile_fd 0 opts.resp_size
        (h.send_headers s.used) (h.sendfile s.used) in
    let file = file_started >>= λ (rv, conn). ok (rv, set_req (set_conn (tick s) c conn) r q) in
    let by_mode : ReplyMode → Run (ℤ × Server) = λ x. elim x [
      | reply_mode_normal ↦ normal
      | reply_mode_sendfile ↦ if leb max_storage_devices opts.dev_id then fault else file
      | reply_mode_other _ ↦ normal
    ] in
    by_mode opts.mode

-- reply(): the answer to the message at `m`, by the command at `cmd`.
unfoldable pub reply_to : Host → Server → ℕ → ℕ → ℕ → Run (ℤ × Server)
reply_to h s r m cmd = do
  c ← home s r
  let b = (conn_of s c).recv_buf
  (m_dst, conn) ← conn_prepare_send_message (conn_of s c)
  opts ← reply_opts b cmd
  room ← message_size conn.send_buf m_dst
  check (leb opts.resp_size room)
  dst ← fill_reply b m conn.send_buf m_dst opts.resp_size
  let s1 = set_conn s c (record conn { send_buf = dst; reply_mode = opts.mode })
  (rv, s2) ← send_reply h s1 r c opts
  (_, t) ← conn_req_remove s2.table c r
  ok (rv, record s2 { table = t; active_reqs = s2.active_reqs -ℤ pos 1 })
