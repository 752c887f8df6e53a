-- ===== src/Lib.antt =====
-- The host model of the USB device testbench: dv/cip_infra/usbdpi.
--
-- The C code plays the host for a USB device in simulation. The simulator calls
-- `usbdpi_device_to_host` with the signals of the device and `usbdpi_host_to_device` for the signals
-- of the host, four times a bit interval. The host sends packets from transfer descriptors, bit by
-- bit, a monitor decodes what passes on the bus and hands its bytes back, and state machines run
-- the control transfers and the streams of a test, one after the other.
--
-- Which file models what (paths below dv/cip_infra/usbdpi):
--   Base            shared notation, C arrays as lists, casts, laws of the bitwise operations
--   Usb             usbdpi.h, usbdpi_test.h, usb_monitor.h: constants and states
--   Crc             usb_crc.c: CRC5, CRC5_MSBfirst, CRC16
--   Utils           usb_utils.c, usb_utils.h: names of PIDs, little endian fields
--   Transfer        usb_transfer.c: one transfer descriptor and the packets that are built in it
--   Context         usbdpi.h: struct usbdpi_ctx; usb_transfer.c: the pool of descriptors, sending
--   Streams         usbdpi_stream.c: generators, turns, streams_init; Streams.Packets: the four
--                   functions on a stream's packets
--   TestSequence    usbdpi_test.c: usbdpi_test_init, usbdpi_test_seq_next
--   Control         usbdpi.c: setDeviceAddress, setDeviceConfiguration; Control.Read: getDescriptor,
--                   getTestConfig; Control.Serial: readBaud, setBaud, tryTX, pollRX, testUnimplEp
--   Bus             usbdpi.c: bus_reset, usbdpi_device_to_host, set_driving, inv_driving
--   Transmit        usbdpi.c: ST_SYNC, ST_SEND, ST_EOP0 and ST_EOP of usbdpi_host_to_device
--   Frame           usbdpi.c: the begin of a bus frame in usbdpi_host_to_device
--   Receive         usbdpi.c: usbdpi_data_callback
--   Service         usbdpi_stream.c: streams_service; Service.Chains, Service.Owned: who holds which
--                   descriptor; Service.Queue to Service.Flow: its queues of received packets
--   Dispatch        usbdpi.c: the dispatch on the test step in usbdpi_host_to_device
--   Host            usbdpi.c: usbdpi_create, usbdpi_host_to_device, usbdpi_diags; Host.Reach: any
--                   sequence of the simulator's calls; Host.Echo: the host and its monitor;
--                   Host.Diags: the diagnostic words
--   Monitor         usb_monitor.c: usb_monitor; Monitor.Report: pid_2data
--   Examples        the theorems at concrete inputs
--
-- How state and operations correspond. `Ctx` has the fields of struct usbdpi_ctx that the code
-- reads, but for the monitor, which is a record of its own (`Monitor`), and for path names and
-- messages. A pointer to a descriptor is its place in `transfer_pool` and NULL is `none`; a pointer
-- into the bytes of a descriptor is an offset. A function that changes the context returns the new
-- one. Each assertion that fails, each use of NULL and each access outside of an array is `none`;
-- so is a reply that `stream_data_process` would build in the very packet that it is made from. What
-- calloc, getcwd, snprintf and fopen answer at the start is a parameter (`Startup`).
-- Numbers are natural numbers with the casts and the wrap-around of the code written out. The
-- monitor's callback is an event that `usb_monitor` returns. The loops over bits and bytes are
-- structural recursion on their count or their list, so no fuel is needed. The two loops over a
-- stream's list of packets have fuel for the 32 descriptors of the pool; that it is enough is part
-- of the results. The state machines of the transfers are stated for every state in which they may
-- be called, and what the device does in between is any change of `bus_state`, `lastrxpid` and the
-- time.
--
-- Not modelled: log output (printf, fprintf, usb_monitor_log, dump_bytes, transfer_dump), which
-- changes no state; the error insertion switches, which are off in usbdpi.h; setTestStatus, which
-- is empty; usbdpi_close and usb_monitor_fin, which free memory and close the log; test_crc.c. The
-- device and the rest of the testbench are SystemVerilog.
pub mod Base
pub mod Crc
pub mod Usb
pub mod Utils
pub mod Monitor
pub mod Transfer
pub mod Context
pub mod Streams
pub mod Service
pub mod Dispatch
pub mod Host
pub mod TestSequence
pub mod Control
pub mod Bus
pub mod Transmit
pub mod Receive
pub mod Frame
pub mod Examples
