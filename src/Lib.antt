-- ===== src/Lib.antt =====
-- Verification of the core of the OCI kernel: a bare-metal kernel that runs containers. The code is
-- under kernel/src; each part is a module here.
--
--   memory/buddy.rs          Memory/Buddy      frames in blocks of 2 ^ order, split and merged
--   memory/mod.rs            Memory/Frames     the usable frames of the memory map
--   memory/heap.rs           Memory/Heap       the pages of the heap
--   net/vswitch.rs           Net/IpPool        addresses of the containers' subnet
--                            Net/VSwitch       the policy of the switch and the port forwards
--   net/http.rs              Net/Http          requests, responses and the decoder of chunks
--   net/virtio_net.rs        Net/Virtio        the network driver and its two queues
--   net/mod.rs, net/stack.rs Net/Web           the web responder
--   net/tls.rs               Net/Tls           a request over TCP, and random bytes
--   main.rs                  Boot              from the boot configuration to the login shell
--   isolation/cgroup.rs      Isolation/Cgroup      memory and process limits
--   isolation/namespace.rs   Isolation/Namespace   process and user numbers
--   isolation/seccomp.rs     Isolation/Seccomp     the allow list of system calls
--   process/scheduler.rs     Process/Scheduler     the round-robin queue
--   fs/overlayfs.rs          Fs/MemLayer, Fs/UpperLayer, Fs/Overlay
--   container/spec.rs        Container/Spec        what a container is made from
--   container/runtime.rs     Container/Runtime     creation, start and stop
--   container/store.rs       Container/Store       the registry of containers
--   config.rs                Config/Line, Config/Builder, Config/Parse
--                            Config/Printer    a writer of configurations, which is no part of the code
--   oci/manifest.rs          Oci/Manifest
--   oci/image_store.rs       Oci/ImageStore
--   oci/layer.rs             Oci/Layer         the gzip envelope of a layer
--                            Oci/Layer/Envelope    a writer of it, which is no part of the code
--   oci/registry.rs          Oci/Sha256        the hash and the digest check
--                            Oci/Registry      authentication, manifests and layers
--   host/shell.rs            Host/Shell        one line of input to one command
--   host/getty.rs            Host/Getty        the login and shell loops, the line readers, each command
--
-- How the parts meet: the configuration is read into container specifications; a container is made
-- from one and holds a cgroup, a namespace, a system call filter and an overlay mount; the store
-- registers it, and the switch leads the ports of the host to it. The image store keeps the layers
-- that are unpacked for it. The login shell works on the root file system, the store, the lists of
-- images and volumes and the port forwards: Host/Getty/State holds them in one record, with the
-- text that was sent to the serial line. Boot takes this record from the statics at the start, over the
-- containers of the boot configuration, to the login shell. The network driver is under the TCP of
-- smoltcp, which the web responder and the requests of the registry client call.
--
-- A struct is a record, an enum a data type, and a method a function of the same name that takes the
-- state and gives the result with the next state, or the next state alone. Words of 16, 32 and 64
-- bits are natural numbers, and a sum or product that the code lets wrap is taken modulo the word;
-- where a build with overflow checks panics instead, the definition says so. An index out of range
-- is the value `panics`. Text is a list of code points. The ordered maps and sets of the standard
-- library are lists in the order of their keys (Prelude/BTreeMap, Prelude/BTreeSet).
--
-- Loops: the loops over a range or a list are recursions on it. The loop of `free` runs on the
-- orders that are left below the last one, the loop of the address pool on the addresses up to the
-- broadcast address, the loop of the scheduler on the length of the queue: each count is the one of
-- the code, so that a loop stops where the code does. `next_power_of_two` and `trailing_zeros` have as
-- bound the 64 bits of the word.
--
-- The loop of the frame allocator has as rounds the number of regions and one more: each round moves
-- on to the next usable region, and there are no more of those than regions.
--
-- The loops of the login shell never end. A turn is one round of one of them, over the bytes that
-- arrive, and a run of turns stops where the next byte is waited for: each turn that goes on takes a
-- byte, so that the number of the bytes and one more is enough. The loop of the chunk decoder has as
-- fuel the length of its input and one more, since each chunk takes at least two bytes. A chain of
-- PCI reads is a recursion on the devices and functions that are left.
--
-- Parameters: the readers of serde_json, the inflater of miniz_oxide, the exchange of bytes under
-- HTTP, the request that the registry client makes and its check of UTF-8, the registers of the PCI
-- bus, the frames and the mapper of the x86_64 crate, and the lower-casing of text. The encoding of
-- text to UTF-8 and back, decimal numbers and the splitting into words are in Prelude (Utf8,
-- Decimal, Words).
--
-- Hardware and smoltcp are parameters whose answers may depend on all that was done before: every write
-- to a port, and every call of a socket, is an entry of a list (Net/Virtio/Ports, Net/Web, Net/Tls).
-- The device at the other end of the receive queue is a step relation (Net/Virtio/Link): it takes
-- available buffers in order and answers those that it holds in any order. The memory of the driver
-- is a parameter that has its addresses.
--
-- The loop that reads a response over TCP has fuel, since it goes on as long as its peer says
-- something; the loop of the responder that takes a request has two rounds, since the buffer of a
-- socket is a ring, of two pieces at most. The loop that fills a buffer with random bytes has as fuel
-- the length of the buffer, since each round fills a byte at least.
--
-- Not modelled: the inside of smoltcp, the set-up of its interface (kernel/src/net/stack.rs), and the
-- hardware code (kernel/src/serial.rs, gdt.rs, interrupts.rs, the steps of main.rs before the boot
-- configuration, and the page tables of memory/mod.rs). The static locks around the
-- state are not part of the definitions: each runs with its lock held, and the responder is told
-- whether its lock was free. The responder that the login shell polls while it waits for a byte is a
-- component of its own: it changes nothing that the shell reads. `capabilities` of the driver is a
-- constant that smoltcp reads.
pub mod Prelude
pub mod Memory
pub mod Net
pub mod Isolation
pub mod Process
pub mod Fs
pub mod Container
pub mod Oci
pub mod Config
pub mod Boot
pub mod Host
