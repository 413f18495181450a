-- ===== src/Dstore/Devices.antt =====
-- The devices of the mesh behind the network: each URL of a shard leads to a server of
-- internal/shardserver/server.go, over the store of its device. The requests of internal/dstore are
-- sent over it, while other callers may upload.
pub mod Push
pub mod Placing
pub mod Fetch
pub mod Durable
use peertopeer.Prelude.{ℕ, [], false, ◌≡◌, ◌≢◌, true, ◌++◌, ◌⊎◌, some}
use peertopeer.Prelude.Text.{Bytes, text}
use peertopeer.Prelude.Dict.{lookup}
use peertopeer.AtomicFile.{Dir}
use peertopeer.Digest.{Sha256, hash, valid_hash}
use peertopeer.LocalStore.{Env}
use peertopeer.Manifest.{ShardRef}
use peertopeer.ShardServer.{
  Options, Request, Response, Body, full, shard, handle, shards_prefix, admit, admitted,
}
use peertopeer.Dstore.Transfer.{Net, HttpReply, no_reply, reply}
use peertopeer.AtomicFile.Keeping.{Keeps}

-- What a server is given when it starts, and the address that it sees of the client.
pub record Site : Type 0 where
  pub options : Options
  pub quota : ℕ
  pub os : Bytes
  pub arch : Bytes
  pub client : Bytes

abbrev pub request : Site → Bytes → Bytes → Bytes → Bytes → Request
request site method h share body = record {
  remote_addr = site.client;
  share = share;
  method = method;
  path = shards_prefix ++ h;
  body = full body;
}

-- What arrives of a response: nothing, or its status and a body. A body that arrives in full after
-- a shard is that shard.
abbrev pub Arrives : Response → HttpReply → Type 0
Arrives response r =
    (r ≡ no_reply)
    ⊎ ((b : Body) × (r ≡ reply response.status b)
        × ((s t : Bytes) → response.answer ≡ shard s → b ≡ full t → t ≡ s))

module _ (sha : Sha256) where
  abbrev pub serve_at : Site → Env → Request → Dir → Response × Dir
  serve_at site env q d = handle sha site.options site.quota site.os site.arch env q d

  -- What a request does at its device: nothing where it is lost, and else one step of the handler.
  -- Other callers' uploads may come before it and after it.
  pub data Served (site : Site) (q : Request) (d : Dir) (r : HttpReply) (d' : Dir) : Type 0 where
    lost : r ≡ no_reply → Keeps d d' → Served site q d r d'
    handled :
        (env : Env) (before : Dir)
        → Keeps d before
        → Keeps (serve_at site env q before).1 d'
        → Arrives (serve_at site env q before).0 r
        → Served site q d r d'

  -- A network that leads to devices, whose stores are read off its state.
  pub record IsMesh {W : Type 0} (net : Net W) : Type 0 where
    pub device : Bytes → ℕ
    pub site : ℕ → Site
    pub store : W → ℕ → Dir
    pub delivers :
        (w : W) (base h method share body : Bytes)
        → valid_hash h ≡ true
        → let (r, w') = net.exchange w method (base ++ (shards_prefix ++ h)) share body in
          Served
            (site (device base))
            (request (site (device base)) method h share body)
            (store w (device base))
            r
            (store w' (device base))
    pub others :
        (w : W) (base h method share body : Bytes) (n : ℕ)
        → n ≢ device base
        → let (_, w') = net.exchange w method (base ++ (shards_prefix ++ h)) share body in
          Keeps (store w n) (store w' n)

  module _ {W : Type 0} (net : Net W) (mesh : IsMesh net) where
    -- The device behind the URL of the reference has a file of the reference's hash.
    pub record OnDevice (w : W) (ref : ShardRef) : Type 0 where
      pub base : Bytes
      pub content : Bytes
      pub url : ref.url ≡ base ++ (shards_prefix ++ ref.hash)
      pub found : lookup ref.hash (mesh.store w (mesh.device base)) ≡ some content
      pub same : hash sha content ≡ ref.hash

    -- A reference to the local store, or one to a device that has the shard.
    abbrev pub Safe : W → ShardRef → Type 0
    Safe w ref = (ref.peer ≡ text "local") ⊎ OnDevice w ref

    -- No store has lost a file.
    pub record Grows (w w' : W) : Type 0 where
      pub keeps : (n : ℕ) → Keeps (mesh.store w n) (mesh.store w' n)

    -- A network that loses nothing, in which no store fails to read, for a client that every device
    -- lets in with this header.
    pub record IsReachable (share : Bytes) : Type 0 where
      pub admits :
          (n : ℕ) (h : Bytes)
          → (caller : Bytes) × (admit
                (mesh.site n).options
                (request (mesh.site n) (text "GET") h share [])
              ≡ admitted caller)
      pub answers :
          (w : W) (base h : Bytes)
          → valid_hash h ≡ true
          → (env : Env) × (env.read_fails ≡ false)
            × ((s : Bytes)
                → (serve_at
                    (mesh.site (mesh.device base))
                    env
                    (request (mesh.site (mesh.device base)) (text "GET") h share [])
                    (mesh.store w (mesh.device base))).0
                  ≡ record { status = 200; answer = shard s }
                → (net.exchange w (text "GET") (base ++ (shards_prefix ++ h)) share []).0
                  ≡ reply 200 (full s))
