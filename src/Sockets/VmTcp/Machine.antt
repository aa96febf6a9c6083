-- ===== src/Sockets/VmTcp/Machine.antt =====
-- src/vsock-tcp.c: the number of the machine that a server is bound to.
use libcando.Base.{
  ℕ, none, some, List, [], ◌∷◌, ◌≡◌, ◌≢◌, refl, arith, ◌==◌, if◌then◌else◌, ◌^◌, ◌-◌,
}
use libcando.Sockets.System.{
  Call, close, open_vsock, get_local_cid, vm_addr, Answer, done, failed, Os,
}
use libcando.Sockets.Steps.{made}
use libcando.Sockets.Triples.{InUse}
use libcando.Sockets.VmTcp.{
  CreateInfo, fresh, uint32_max, found_cid, vsock_get_local_vcid, vcid_of, address, server_create,
  create_vsock, open_socket, serve,
}
use libcando.Sockets.VmTcp.Ownership.{vsock_get_local_vcid-InUse}

-- What open(2) and ioctl(2) answer, as a number of a machine
abbrev pub cid_of : Answer → Answer → ℕ
cid_of (failed e) asked = uint32_max
cid_of (done v) asked = found_cid asked

-- The calls of p_vsock_get_local_vcid, the last one first
abbrev pub cid_calls : Answer → (fd : ℕ) → List Call
cid_calls (failed e) fd = open_vsock ∷ []
cid_calls (done v) fd = close (some fd) ∷ get_local_cid (some fd) ∷ open_vsock ∷ []

pub vsock_get_local_vcid-lem :
    (os : Os)
    → let fd = os.kernel.pick os.held in
      let r = vsock_get_local_vcid (record os { trace = [] }) in
      (r.0 ≡ cid_of (os.answers 0) (os.answers 1))
      × (r.1.trace ≡ cid_calls (os.answers 0) fd)
      × InUse os.held os.blocks r.1
unfolding vsock_get_local_vcid
vsock_get_local_vcid-lem os = (
  ground arith,
  ground arith,
  vsock_get_local_vcid-InUse os.held os.blocks (record os { trace = [] }) refl refl,
)

pub server_create-any_machine :
    (info : CreateInfo) (os : Os) (errno : ℕ) (value : ℕ → ℕ)
    → info.vcid ≢ 1
    → (server_create none info
        (record os { answers = λ i. if i == 3 then failed errno else done (value i) })).0
      ≡ made (record fresh {
        fd = some (os.kernel.pick os.held);
        vcid = 2 ^ 32 - 1;
        port = info.port;
        addr = vm_addr info.port (2 ^ 32 - 1);
      })
unfolding server_create create_vsock open_socket serve address vcid_of vsock_get_local_vcid
server_create-any_machine info os errno value h = ground arith
