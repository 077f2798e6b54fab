-- ===== src/Remote/Examples.antt =====
-- The device of src/RemoteUDevice.cpp, on sample sockets.
